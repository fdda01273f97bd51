-- ===== src/Session/Traces.antt =====
-- Sequences of operations on a connection, its statements and its connector, in any order and with any
-- answers of the native library.
use datafusion_go.Base.{
  ℕ, ◌≡◌, refl, sym, ap, subst, ◌∙◌, inl, inr, Bool, true, false, ◌||◌, Option, none, some, List,
  [], ◌∷◌, length, get_elem?, All, Bool-cases, Option-cases, arith, String, if◌then◌else◌,
}
use datafusion_go.Errors.{
  GoError, execute, Result, ok, err, ◌>>=◌, >>=-eq-ok, map_err, driver_error,
}
use datafusion_go.Params.Normalize.{Clock}
use datafusion_go.Params.Args.{NamedValue}
use datafusion_go.Params.Bind.{check_arg_count, statement_params}
use datafusion_go.Session.State.{
  Handle, Statement, Driver, Answers, check_ctx, native_prepare, Execution, native_execute,
}
use datafusion_go.Session.Statements.{
  prepare_context, close_statement, execute_native_statement, execute_open, execute_arrow,
}
use datafusion_go.Session.Connections.{close_connector, close_conn, reset_connect, reset_commit}
use datafusion_go.Session.Queries.{Source, run_arrow_query}
use datafusion_go.Session.Invariant.{count, live, FitsSession, IsOf, IsSound, get_elem?-FitsSession}
use datafusion_go.Session.Preserved.{
  Result-cases, native_prepare-session, close_connector-IsSound, close_conn-IsSound,
  close_statement-IsSound, prepare_context-IsSound,
}
use datafusion_go.Session.Resets.{reset_connect-IsSound, reset_commit-IsSound}
use datafusion_go.Session.Runs.{run_arrow_query-Holds}

pub data Op : Type 0 where
  prepare_op : Answers → String → Op
  close_statement_op : ℕ → Op
  query_op : Clock → Answers → Source → List NamedValue → Op
  reset_connect_op : Answers → Op
  reset_commit_op close_conn_op close_connector_op : Op

unfoldable pub step : Op → Driver → Driver
step (prepare_op a query) d = (prepare_context a query d).0
step (close_statement_op i) d = close_statement i d
step (query_op c a source args) d = (run_arrow_query c a source args d).0
step (reset_connect_op a) d = (reset_connect a d).0
step reset_commit_op d = (reset_commit d).0
step close_conn_op d = close_conn d
step close_connector_op d = close_connector d

unfoldable pub run_session : List Op → Driver → Driver
run_session [] d = d
run_session (op ∷ ops) d = run_session ops (step op d)

-- The connection that Connect returns, of a connector that is open.
abbrev pub opened : Bool → Bool → Bool → Driver
opened shared has_init owns = record {
  connector = record {
    db_open = true;
    has_init = has_init;
    shared_session = shared;
    closed = false;
  };
  conn = record { native = some 0; owns_connector = owns; closed = false; statements = [] };
  sessions = 1;
  open_connections = 1;
  open_statements = 0;
  conn_locks = 0;
  connector_locks = 0;
  pending = [];
}

step-IsSound : (op : Op) (d : Driver) → IsSound 0 d → IsSound 0 (step op d)
unfolding step
step-IsSound (prepare_op a query) d h = prepare_context-IsSound 0 a query d h
step-IsSound (close_statement_op i) d h = close_statement-IsSound 0 i d h
step-IsSound (query_op c a source args) d h = (run_arrow_query-Holds c a source args d h).0
step-IsSound (reset_connect_op a) d h = reset_connect-IsSound 0 a d h
step-IsSound reset_commit_op d h = reset_commit-IsSound 0 d h
step-IsSound close_conn_op d h = close_conn-IsSound 0 d h
step-IsSound close_connector_op d h = close_connector-IsSound 0 d h

pub run_session-keeps : (ops : List Op) (d : Driver) → IsSound 0 d → IsSound 0 (run_session ops d)
unfolding run_session
run_session-keeps [] d h = h
run_session-keeps (op ∷ ops) d h = run_session-keeps ops (step op d) (step-IsSound op d h)

opened-IsSound : (shared has_init owns : Bool) → IsSound 0 (opened shared has_init owns)
unfolding live
opened-IsSound shared has_init owns = record {
  connections = refl;
  statements = refl;
  sessions = tt;
  present = refl;
}

-- After any sequence of operations on a new connection, resets that are still under way included, the open
-- native handles are exactly the ones that the connection, its statements and these resets own, no
-- statement holds a handle of an earlier session, and a connection has a session just when it is
-- not closed.
pub run_session-IsSound :
    (ops : List Op) (shared has_init owns : Bool)
    → IsSound 0 (run_session ops (opened shared has_init owns))
run_session-IsSound ops shared has_init owns =
    run_session-keeps ops (opened shared has_init owns) (opened-IsSound shared has_init owns)

no_handle :
    (native : Option Handle) (closed : Bool) (session : Option ℕ) (x : Handle)
    → session ≡ none
    → native ≡ some x
    → IsOf session closed native
    → ⊥
no_handle none closed session x e q h = cc
no_handle (some y) closed session x e q h = let f : session ≡ some y.session = h.1 in cc

count-none : (session : Option ℕ) → count session ≡ 0 → session ≡ none
count-none none h = refl
count-none (some n) h = cc

no_session :
    (ss : List Statement) (session : Option ℕ)
    → session ≡ none
    → All (FitsSession session) ss
    → live ss ≡ 0
unfolding live
no_session [] session e h = refl
no_session (s ∷ ss) session e (h, hs) = elim (Option-cases s.native) [
  | inl q ↦ rw q (omega (arith, no_session ss session e hs))
  | inr (x, q) ↦ elim (no_handle s.native s.closed session x e q h.1) [ ]
]

closed-IsSound :
    (d : Driver)
    → IsSound 0 d
    → d.conn.closed ≡ true
    → (d.open_statements ≡ 0) × (d.open_connections ≡ length d.pending)
closed-IsSound d h c =
    let zero_count : count d.conn.native ≡ 0 = h.present ∙ ap (λ b. if b then 0 else 1) c in
    let gone =
      no_session d.conn.statements d.conn.native (count-none d.conn.native zero_count) h.sessions in
    (omega (arith, h.statements, gone), omega (arith, h.connections, zero_count))

-- Once a connection is closed, after any sequence of operations on it since it was new, no native
-- statement is open, and the only native connections that are open are the ones of resets that
-- have not ended.
pub run_session-closed :
    (ops : List Op) (shared has_init owns : Bool)
    → (run_session ops (opened shared has_init owns)).conn.closed ≡ true
    → ((run_session ops (opened shared has_init owns)).open_statements ≡ 0)
      × ((run_session ops (opened shared has_init owns)).open_connections
          ≡ length (run_session ops (opened shared has_init owns)).pending)
run_session-closed ops shared has_init owns c =
    closed-IsSound _ (run_session-IsSound ops shared has_init owns) c

map_err-ok :
    {A : Type 0} (f : GoError → GoError) (r : Result A) (x : A) → map_err f r ≡ ok x → r ≡ ok x
map_err-ok f (ok y) x e = e
map_err-ok f (err y) x e = cc

execute_native_statement-session :
    (a : Answers) (h : Handle) (args : List NamedValue) (x : Execution)
    → execute_native_statement a (some h) args ≡ ok x
    → x.on_session ≡ h.session
unfolding execute_native_statement native_execute
execute_native_statement-session a h args x e =
    let run = map_err-ok (driver_error execute "could not execute DataFusion statement") _ x e in
    let (u, c, r1) = >>=-eq-ok (check_ctx a.execute_ctx) _ run in
    let (v, n, r2) = >>=-eq-ok (check_arg_count h.num_input args) _ r1 in
    let (w, m, r3) = >>=-eq-ok (statement_params args >>= λ block. a.execute) _ r2 in cc

execute_arrow-current :
    (t : ℕ) (a : Answers) (i : ℕ) (args : List NamedValue) (d : Driver) (x : Execution)
    → IsSound t d
    → (execute_arrow a i args d).1 ≡ ok x
    → d.conn.native ≡ some x.on_session
unfolding execute_arrow execute_open
execute_arrow-current t a i args d x h e = elim (Option-cases (get_elem? d.conn.statements i)) [
  | inl q ↦ let e' = simp (q, execute_arrow) at e in cc
  | inr (s, q) ↦ elim (Bool-cases (s.closed || d.conn.closed)) [
    | inl c ↦ let e' = simp (q, c, execute_arrow) at e in cc
    | inr c ↦ elim (Option-cases s.native) [
      | inr (y, n) ↦
          let e' = simp (q, c, n, execute_arrow, execute_open) at e in
          let fits = get_elem?-FitsSession d.conn.native d.conn.statements i s h.sessions q in
          let held = subst (IsOf d.conn.native s.closed) n fits.1 in
          held.1 ∙ ap some (sym (execute_native_statement-session a y args x e'))
      | inl n ↦ elim (Result-cases (native_prepare d.conn.native s.query a.prepare)) [
        | inr (z, p) ↦ let e' = simp (q, c, n, p, execute_arrow, execute_open) at e in cc
        | inl (y, p) ↦
            let e' = simp (q, c, n, p, execute_arrow, execute_open) at e in
            native_prepare-session d.conn.native s.query a.prepare y p
            ∙ ap some (sym (execute_native_statement-session a y args x e'))
      ]
    ]
  ]
]

-- After any sequence of operations on a new connection, a prepared statement that runs does so on
-- the session that the connection has then, also after resets: a result is never one of an earlier
-- session.
pub execute_arrow-session :
    (ops : List Op) (shared has_init owns : Bool) (a : Answers) (i : ℕ) (args : List NamedValue)
    (x : Execution)
    → (execute_arrow a i args (run_session ops (opened shared has_init owns))).1 ≡ ok x
    → (run_session ops (opened shared has_init owns)).conn.native ≡ some x.on_session
execute_arrow-session ops shared has_init owns a i args x e =
    execute_arrow-current 0 a i args _ x (run_session-IsSound ops shared has_init owns) e
