-- ===== src/Session/Statements.antt =====
-- The methods of Stmt in statement.go, and Prepare and invalidateStatementsLocked of connection.go.
use datafusion_go.Base.{
  ℕ, suc, String, true, false, ◌||◌, Option, none, some, List, [], ◌∷◌, ◌++◌, length, get_elem?,
  set, if◌then◌else◌,
}
use datafusion_go.Base.Int.{ℤ, negsuc}
use datafusion_go.Errors.{nil, prepare, execute, closed, Result, ok, err, map_err, driver_error}
use datafusion_go.Params.Args.{NamedValue}
use datafusion_go.Session.State.{
  Handle, Statement, Driver, Answers, native_prepare, native_close, Execution, native_execute,
}

-- One round of the loop of invalidateStatementsLocked, which runs over the registered statements.
abbrev pub invalidate : Statement → Statement
invalidate s = record s { native = if s.registered then none else s.native }

-- The handles that are open after the loop.
abbrev pub open_after : List Statement → ℕ → ℕ
open_after [] n = n
open_after (s ∷ ss) n = open_after ss (if s.registered then native_close s.native n else n)

abbrev pub invalidate_all : List Statement → List Statement
invalidate_all [] = []
invalidate_all (s ∷ ss) = invalidate s ∷ invalidate_all ss

-- invalidateStatementsLocked.
unfoldable pub invalidate_statements : Driver → Driver
invalidate_statements d = record d {
  conn = record d.conn { statements = invalidate_all d.conn.statements };
  open_statements = open_after d.conn.statements d.open_statements;
}

abbrev pub put : Driver → List Statement → Driver
put d ss = record d { conn = record d.conn { statements = ss } }

-- PrepareContext. The statement is known by its place in the list.
unfoldable pub prepare_context : Answers → String → Driver → Driver × Result ℕ
prepare_context a query d = elim a.ctx_err [
  | some e ↦ (d, err e)
  | none ↦ elim d.conn.closed [
    | true ↦ (d, err (driver_error closed "datafusion connection is closed" nil))
    | false ↦ elim (native_prepare d.conn.native query a.prepare) [
      | err e ↦ (d, err (driver_error prepare "could not prepare DataFusion statement" e))
      | ok h ↦
          let s : Statement = record {
            native = some h;
            query = query;
            num_input = h.num_input;
            serializes = h.serializes;
            closed = false;
            registered = true;
          } in
          (
            record d {
              conn = record d.conn { statements = d.conn.statements ++ s ∷ [] };
              open_statements = suc d.open_statements;
            },
            ok (length d.conn.statements),
          )
    ]
  ]
]

-- Stmt.Close, of the statement `i`.
unfoldable pub close_statement : ℕ → Driver → Driver
close_statement i d = elim (get_elem? d.conn.statements i) [
  | none ↦ d
  | some s ↦ elim s.closed [
    | true ↦ d
    | false ↦
        let s' : Statement = record s { closed = true; native = none; registered = false } in
        record d {
          conn = record d.conn { statements = set d.conn.statements i s' };
          open_statements = native_close s.native d.open_statements;
        }
  ]
]

-- NumInput.
unfoldable pub num_input : Statement → ℤ
num_input s = if s.closed then negsuc 0 else s.num_input

-- executeNativeStatement.
unfoldable pub execute_native_statement :
    Answers → Option Handle → List NamedValue → Result Execution
unfolding native_execute
execute_native_statement a h args =
    map_err (driver_error execute "could not execute DataFusion statement")
      (native_execute h a.execute_ctx args a.execute)

-- executeArrow, when the statement and the connection are open.
unfoldable pub execute_open :
    Answers → ℕ → Statement → List NamedValue → Driver → Driver × Result Execution
unfolding execute_native_statement
execute_open a i s args d = elim s.native [
  | some h ↦ (d, execute_native_statement a (some h) args)
  | none ↦ elim (native_prepare d.conn.native s.query a.prepare) [
    | err e ↦ (
      d,
      err (driver_error prepare "could not reprepare DataFusion statement after session reset" e),
    )
    | ok h ↦ (
      record d {
        conn = record d.conn {
          statements = set d.conn.statements i (record s { native = some h });
        };
        open_statements = suc d.open_statements;
      },
      execute_native_statement a (some h) args,
    )
  ]
]

-- executeArrow, of the statement `i`. A statement that is not there is none of a caller's.
unfoldable pub execute_arrow : Answers → ℕ → List NamedValue → Driver → Driver × Result Execution
unfolding execute_open
execute_arrow a i args d = elim (get_elem? d.conn.statements i) [
  | none ↦ (d, err (driver_error closed "datafusion statement is closed" nil))
  | some s ↦ elim (s.closed || d.conn.closed) [
    | true ↦ (d, err (driver_error closed "datafusion statement is closed" nil))
    | false ↦ execute_open a i s args d
  ]
]
