-- ===== src/Session/Runs.antt =====
-- runArrowQuery keeps the invariant, and leaves a lock taken exactly for a result that owns it.
use datafusion_go.Base.{
  ℕ, suc, ◌+◌, ◌≡◌, refl, sym, subst, inl, inr, not, ◌||◌, ◌&&◌, Option, none, some, List,
  get_elem?, set, Bool-cases, Option-cases, arith,
}
use datafusion_go.Errors.{Result, ok, err, ◌>>◌}
use datafusion_go.Params.Normalize.{Clock}
use datafusion_go.Params.Args.{NamedValue, normalize_slice}
use datafusion_go.Session.State.{Handle, Statement, Driver, Answers, check_ctx, native_prepare}
use datafusion_go.Session.Statements.{execute_open, execute_arrow}
use datafusion_go.Session.Connections.{is_valid, has_native}
use datafusion_go.Session.Queries.{
  Source, direct, prepared, QueryOperation, Lock, conn_lock, connector_lock, prepare_direct,
  prepare_operation, lock_of, take_lock, free_lock, acquire, close_operation, execute_operation,
  Running, run_locked, run_operation, run_arrow_query,
}
use datafusion_go.Session.Invariant.{count, IsSound}
use datafusion_go.Session.Preserved.{Result-cases, execute_arrow-IsSound}

-- The locks that an option of a lock stands for.
abbrev pub conn_part : Option Lock → ℕ
conn_part (some conn_lock) = 1
conn_part _ = 0

abbrev pub connector_part : Option Lock → ℕ
connector_part (some connector_lock) = 1
connector_part _ = 0

-- The state `d'` has the locks of `d` and the ones of `l`.
pub record Locks (d : Driver) (l : Option Lock) (d' : Driver) : Type 0 where
  pub conn : d'.conn_locks ≡ d.conn_locks + conn_part l
  pub connector : d'.connector_locks ≡ d.connector_locks + connector_part l

-- Sound, with `t` statements owned by the query that runs, and with the locks of `l` taken since `d`.
abbrev pub Holds : ℕ → Driver → Option Lock → Driver → Type 0
Holds t d l d' = IsSound t d' × Locks d l d'

by {ℓ} : {A : Type ℓ} {x y : A} (P : A → Type 0) → x ≡ y → P y → P x
by P e h = subst P (sym e) h

put_statement-Locks :
    (d0 d : Driver) (l : Option Lock) (ss : List Statement) (n : ℕ)
    → Locks d0 l d
    → Locks d0 l (record d { conn = record d.conn { statements = ss }; open_statements = n })
put_statement-Locks d0 d l ss n h = record { conn = h.conn; connector = h.connector }

-- executeArrow takes no lock.
execute_arrow-Locks :
    (a : Answers) (i : ℕ) (args : List NamedValue) (d0 d : Driver) (l : Option Lock)
    → Locks d0 l d
    → Locks d0 l (execute_arrow a i args d).0
unfolding execute_arrow execute_open
execute_arrow-Locks a i args d0 d l h = elim (Option-cases (get_elem? d.conn.statements i)) [
  | inl q ↦ by (Locks d0 l) (simp (q, execute_arrow) refl) h
  | inr (s, q) ↦ elim (Bool-cases (s.closed || d.conn.closed)) [
    | inl c ↦ by (Locks d0 l) (simp (q, c, execute_arrow) refl) h
    | inr c ↦ elim (Option-cases s.native) [
      | inr (x, n) ↦ by (Locks d0 l) (simp (q, c, n, execute_arrow, execute_open) refl) h
      | inl n ↦ elim (Result-cases (native_prepare d.conn.native s.query a.prepare)) [
        | inr (e, p) ↦ by (Locks d0 l) (simp (q, c, n, p, execute_arrow, execute_open) refl) h
        | inl (x, p) ↦ by (Locks d0 l) (simp (q, c, n, p, execute_arrow, execute_open) refl) (
            put_statement-Locks d0 d l (set d.conn.statements i (record s { native = some x }))
              (suc d.open_statements) h)
      ]
    ]
  ]
]

execute_operation-Holds :
    (t : ℕ) (a : Answers) (op : QueryOperation) (args : List NamedValue) (d0 d : Driver)
    (l : Option Lock)
    → Holds t d0 l d
    → Holds t d0 l (execute_operation a op args d).0
unfolding execute_operation
execute_operation-Holds t a op args d0 d l h = elim (Option-cases op.temporary) [
  | inr (x, q) ↦ by (Holds t d0 l) (simp (q, execute_operation) refl) h
  | inl q ↦ by (Holds t d0 l) (simp (q, execute_operation) refl) (
    execute_arrow-IsSound t a op.statement args d h.0,
    execute_arrow-Locks a op.statement args d0 d l h.1,
  )
]

same-IsSound :
    (t : ℕ) (d : Driver) (m n : ℕ)
    → IsSound t d
    → IsSound t (record d { conn_locks = m; connector_locks = n })
same-IsSound t d m n h = record {
  connections = h.connections;
  statements = h.statements;
  sessions = h.sessions;
  present = h.present;
}

take_lock-Holds :
    (t : ℕ) (d0 d : Driver) (l : Option Lock) → Holds t d0 none d → Holds t d0 l (take_lock l d)
take_lock-Holds t d0 d none h = h
take_lock-Holds t d0 d (some conn_lock) (h, k) = (
  same-IsSound t d _ _ h,
  record { conn = omega (arith, k.conn); connector = omega (arith, k.connector) },
)
take_lock-Holds t d0 d (some connector_lock) (h, k) = (
  same-IsSound t d _ _ h,
  record { conn = omega (arith, k.conn); connector = omega (arith, k.connector) },
)

free_lock-Holds :
    (t : ℕ) (d0 d : Driver) (l : Option Lock) → Holds t d0 l d → Holds t d0 none (free_lock l d)
free_lock-Holds t d0 d none h = h
free_lock-Holds t d0 d (some conn_lock) (h, k) = (
  same-IsSound t d _ _ h,
  record { conn = omega (arith, k.conn); connector = omega (arith, k.connector) },
)
free_lock-Holds t d0 d (some connector_lock) (h, k) = (
  same-IsSound t d _ _ h,
  record { conn = omega (arith, k.conn); connector = omega (arith, k.connector) },
)

-- The lock that a result owns.
abbrev pub owned : Result Running → Option Lock
owned (ok x) = x.lock
owned (err e) = none

run_locked-Holds :
    (t : ℕ) (a : Answers) (op : QueryOperation) (l : Option Lock) (args : List NamedValue)
    (d0 d : Driver)
    → Holds t d0 l d
    → Holds t d0 (owned (run_locked a op l args d).1) (run_locked a op l args d).0
unfolding run_locked
run_locked-Holds t a op l args d0 d h =
    let k = execute_operation-Holds t a op args d0 d l h in
    elim (Result-cases (execute_operation a op args d).1) [
      | inl (x, q) ↦ simp (q, run_locked) k
      | inr (e, q) ↦ simp (q, run_locked) (free_lock-Holds t d0 _ l k)
    ]

close_operation-Holds :
    (d0 d : Driver) (h : Option Handle) (l : Option Lock)
    → Holds (count h) d0 l d
    → Holds 0 d0 l (close_operation h d)
close_operation-Holds d0 d none l k = k
close_operation-Holds d0 d (some x) l (h, k) = (
  record {
    connections = h.connections;
    statements = omega (arith, h.statements);
    sessions = h.sessions;
    present = h.present;
  },
  record { conn = k.conn; connector = k.connector },
)

run_operation-Holds :
    (a : Answers) (op : QueryOperation) (args : List NamedValue) (d0 d : Driver)
    → Holds (count op.temporary) d0 none d
    → Holds 0 d0 (owned (run_operation a op args d).1) (run_operation a op args d).0
unfolding run_operation
run_operation-Holds a op args d0 d h =
    let l = lock_of d op.serializes in
    elim (Result-cases (acquire l a.lock)) [
      | inr (e, q) ↦ simp (q, run_operation) (close_operation-Holds d0 d op.temporary none h)
      | inl (u, q) ↦
          let taken = take_lock-Holds (count op.temporary) d0 d l h in
          simp (q, run_operation)
            (close_operation-Holds d0 _ op.temporary _
              (run_locked-Holds (count op.temporary) a op l args d0 (take_lock l d) taken))
    ]

-- What prepareOperation leaves: the temporary statement of the operation is open, if it has one.
abbrev IsPrepared : Driver → Driver × Result QueryOperation → Type 0
IsPrepared d0 (d, ok op) = Holds (count op.temporary) d0 none d
IsPrepared d0 (d, err e) = Holds 0 d0 none d

prepare_operation-IsPrepared :
    (a : Answers) (source : Source) (d : Driver)
    → IsSound 0 d
    → IsPrepared d (prepare_operation a source d)
unfolding prepare_operation prepare_direct is_valid
prepare_operation-IsPrepared a (prepared i) d h =
    (h, record { conn = omega arith; connector = omega arith })
prepare_operation-IsPrepared a (direct query) d h =
    let k : Locks d none d = record { conn = omega arith; connector = omega arith } in
    elim (Bool-cases (not d.conn.closed && has_native d.conn.native)) [
      | inr v ↦ simp (v, prepare_direct) (h, k)
      | inl v ↦ elim (Result-cases (native_prepare d.conn.native query a.prepare)) [
        | inr (e, q) ↦ simp (v, q, prepare_direct) (h, k)
        | inl (x, q) ↦
            simp (v, q, prepare_direct)
              (
                record {
                  connections = h.connections;
                  statements = omega (arith, h.statements);
                  sessions = h.sessions;
                  present = h.present;
                },
                record { conn = k.conn; connector = k.connector },
              )
      ]
    ]

run_prepared :
    (c : Clock) (a : Answers) (source : Source) (args named : List NamedValue) (d : Driver)
    (p : Driver × Result QueryOperation)
    → prepare_operation a source d ≡ p
    → (check_ctx a.ctx_err >> normalize_slice c args) ≡ ok named
    → IsPrepared d p
    → Holds 0 d (owned (run_arrow_query c a source args d).1) (run_arrow_query c a source args d).0
unfolding run_arrow_query
run_prepared c a source args named d (d1, err e) made q h = simp (q, made, run_arrow_query) h
run_prepared c a source args named d (d1, ok op) made q h =
    simp (q, made, run_arrow_query) (run_operation-Holds a op named d d1 h)

-- From a sound state with no query running, runArrowQuery, however it ends, leaves the state sound
-- and no temporary statement open. If it returns a result, it has taken the lock that the result
-- owns, where it owns one, and no other; if it fails, the locks are as they were.
pub run_arrow_query-Holds :
    (c : Clock) (a : Answers) (source : Source) (args : List NamedValue) (d : Driver)
    → IsSound 0 d
    → Holds 0 d (owned (run_arrow_query c a source args d).1) (run_arrow_query c a source args d).0
unfolding run_arrow_query
run_arrow_query-Holds c a source args d h =
    elim (Result-cases (check_ctx a.ctx_err >> normalize_slice c args)) [
      | inr (e, q) ↦
          simp (q, run_arrow_query) (h, record { conn = omega arith; connector = omega arith })
      | inl (named, q) ↦
          run_prepared c a source args named d _ refl q (prepare_operation-IsPrepared a source d h)
    ]
