-- ===== src/Session/Preserved.antt =====
-- Every operation keeps the invariant.
use datafusion_go.Base.{
  ℕ, suc, ◌+◌, ◌≡◌, refl, sym, ap, subst, ◌∙◌, ◌≤◌, inl, inr, ◌⊎◌, Bool, true, false, ◌||◌, Option,
  none, some, List, [], ◌∷◌, ◌++◌, get_elem?, set, Bool-cases, Option-cases, arith, String,
}
use datafusion_go.Errors.{GoError, Result, ok, err, >>=-eq-ok}
use datafusion_go.Params.Args.{NamedValue}
use datafusion_go.Session.State.{
  Handle, Prepared, Statement, Driver, Answers, native_close, native_connection_close,
  native_prepare, check_no_nul_byte,
}
use datafusion_go.Session.Statements.{
  invalidate_statements, prepare_context, close_statement, execute_open, execute_arrow,
}
use datafusion_go.Session.Connections.{close_connector, close_open, close_conn}
use datafusion_go.Session.Invariant.{
  count, FitsSession, IsSound, open_after-live, invalidate_all-live, invalidate_all-FitsSession,
  set-live, set-FitsSession, get_elem?-FitsSession, append-FitsSession, append-live,
}

-- A handle that was prepared is of the session that it was prepared on.
pub native_prepare-session :
    (session : Option ℕ) (query : String) (answer : Result Prepared) (h : Handle)
    → native_prepare session query answer ≡ ok h
    → session ≡ some h.session
unfolding native_prepare
native_prepare-session none query answer h e = cc
native_prepare-session (some n) query answer h e =
    let (u, fine, rest) = >>=-eq-ok (check_no_nul_byte query "query") _ e in
    let (p, got, made) = >>=-eq-ok answer _ rest in cc

-- The cases of a call.
pub Result-cases {ℓ} :
    {A : Type ℓ} (r : Result A) → ((a : A) × (r ≡ ok a)) ⊎ ((e : GoError) × (r ≡ err e))
Result-cases (ok a) = inl (a, refl)
Result-cases (err e) = inr (e, refl)

or_false : (a b : Bool) → (a || b) ≡ false → a ≡ false
or_false true b h = h
or_false false b h = refl

-- The outcome of an operation is sound if it is equal to something sound.
pub same : {t : ℕ} {d d' : Driver} → d ≡ d' → IsSound t d' → IsSound t d
same {t} e h = subst (IsSound t) (sym e) h

pub close_connector-IsSound : (t : ℕ) (d : Driver) → IsSound t d → IsSound t (close_connector d)
unfolding close_connector
close_connector-IsSound t d h = elim (Bool-cases d.connector.closed) [
  | inl q ↦ simp (q, close_connector) h
  | inr q ↦
      simp (q, close_connector)
        (record {
          connections = h.connections;
          statements = h.statements;
          sessions = h.sessions;
          present = h.present;
        })
]

pub native_connection_close-count :
    (native : Option ℕ) (k n : ℕ) → n ≡ count native + k → native_connection_close native n ≡ k
native_connection_close-count none k n e = omega (arith, e)
native_connection_close-count (some s) k n e = omega (arith, e)

close_open-IsSound : (t : ℕ) (d : Driver) → IsSound t d → IsSound t (close_open d)
unfolding invalidate_statements
close_open-IsSound t d h = record {
  connections =
      native_connection_close-count d.conn.native _ d.open_connections h.connections ∙ omega arith;
  statements =
      open_after-live d.conn.native d.conn.statements t d.open_statements h.sessions h.statements
      ∙ omega (arith, invalidate_all-live d.conn.native d.conn.statements h.sessions);
  sessions = invalidate_all-FitsSession d.conn.native d.conn.statements none h.sessions;
  present = refl;
}

pub close_conn-IsSound : (t : ℕ) (d : Driver) → IsSound t d → IsSound t (close_conn d)
unfolding close_conn
close_conn-IsSound t d h = elim (Bool-cases d.conn.closed) [
  | inl q ↦ same (simp (q, close_conn) refl) h
  | inr q ↦ elim (Bool-cases d.conn.owns_connector) [
    | inl o ↦
        same (rw (q, o, close_conn) refl)
          (close_connector-IsSound t (close_open d) (close_open-IsSound t d h))
    | inr o ↦ same (rw (q, o, close_conn) refl) (close_open-IsSound t d h)
  ]
]

-- An operation that takes a statement's handle away, or gives it one.
set_statement :
    (t n : ℕ) (d : Driver) (i : ℕ) (s s' : Statement)
    → IsSound t d
    → get_elem? d.conn.statements i ≡ some s
    → FitsSession d.conn.native s'
    → n + count s.native ≡ d.open_statements + count s'.native
    → IsSound t (record d {
      conn = record d.conn { statements = set d.conn.statements i s' };
      open_statements = n;
    })
set_statement t n d i s s' h at fits balance = record {
  connections = h.connections;
  statements =
      omega (arith, set-live d.conn.native d.conn.statements i s s' at, h.statements, balance);
  sessions = set-FitsSession d.conn.native d.conn.statements i s' h.sessions fits;
  present = h.present;
}

native_close-count :
    (native : Option Handle) (n : ℕ)
    → count native ≤ n
    → native_close native n + count native ≡ n + 0
native_close-count none n h = omega arith
native_close-count (some x) n h = omega (arith, h)

pub close_statement-IsSound : (t i : ℕ) (d : Driver) → IsSound t d → IsSound t (close_statement i d)
unfolding close_statement
close_statement-IsSound t i d h = elim (Option-cases (get_elem? d.conn.statements i)) [
  | inl q ↦ same (simp (q, close_statement) refl) h
  | inr (s, q) ↦ elim (Bool-cases s.closed) [
    | inl c ↦ same (simp (q, c, close_statement) refl) h
    | inr c ↦
        let s' : Statement = record s { closed = true; native = none; registered = false } in
        let left = set-live d.conn.native d.conn.statements i s s' q in
        same (simp (q, c, close_statement) refl) (
          set_statement t (native_close s.native d.open_statements) d i s s' h q (refl, tt)
            (native_close-count s.native d.open_statements (omega (arith, left, h.statements))))
  ]
]

-- executeArrow prepares a statement again only if it holds no handle.
execute_open-IsSound :
    (t : ℕ) (a : Answers) (i : ℕ) (s : Statement) (args : List NamedValue) (d : Driver)
    → IsSound t d
    → get_elem? d.conn.statements i ≡ some s
    → s.closed ≡ false
    → IsSound t (execute_open a i s args d).0
unfolding execute_open
execute_open-IsSound t a i s args d h at c = elim (Option-cases s.native) [
  | inr (x, n) ↦ same (simp (n, execute_open) refl) h
  | inl n ↦ elim (Result-cases (native_prepare d.conn.native s.query a.prepare)) [
    | inr (e, q) ↦ same (simp (n, q, execute_open) refl) h
    | inl (x, q) ↦
        let fits = get_elem?-FitsSession d.conn.native d.conn.statements i s h.sessions at in
        let current = native_prepare-session d.conn.native s.query a.prepare x q in
        same (simp (n, q, execute_open) refl) (
          set_statement t (suc d.open_statements) d i s (record s { native = some x }) h at
            (fits.0, (c, current)) (omega (arith, ap count n)))
  ]
]

pub execute_arrow-IsSound :
    (t : ℕ) (a : Answers) (i : ℕ) (args : List NamedValue) (d : Driver)
    → IsSound t d
    → IsSound t (execute_arrow a i args d).0
unfolding execute_arrow
execute_arrow-IsSound t a i args d h = elim (Option-cases (get_elem? d.conn.statements i)) [
  | inl q ↦ same (simp (q, execute_arrow) refl) h
  | inr (s, q) ↦ elim (Bool-cases (s.closed || d.conn.closed)) [
    | inl c ↦ same (simp (q, c, execute_arrow) refl) h
    | inr c ↦
        same (simp (q, c, execute_arrow) refl)
          (execute_open-IsSound t a i s args d h q (or_false s.closed d.conn.closed c))
  ]
]

add_statement :
    (t : ℕ) (d : Driver) (s : Statement)
    → IsSound t d
    → FitsSession d.conn.native s
    → count s.native ≡ 1
    → IsSound t (record d {
      conn = record d.conn { statements = d.conn.statements ++ s ∷ [] };
      open_statements = suc d.open_statements;
    })
add_statement t d s h fits one = record {
  connections = h.connections;
  statements = omega (arith, append-live d.conn.native d.conn.statements s, h.statements, one);
  sessions = append-FitsSession d.conn.native d.conn.statements s h.sessions fits;
  present = h.present;
}

pub prepare_context-IsSound :
    (t : ℕ) (a : Answers) (query : String) (d : Driver)
    → IsSound t d
    → IsSound t (prepare_context a query d).0
unfolding prepare_context
prepare_context-IsSound t a query d h = elim (Option-cases a.ctx_err) [
  | inr (e, q) ↦ same (simp (q, prepare_context) refl) h
  | inl q ↦ elim (Bool-cases d.conn.closed) [
    | inl c ↦ same (simp (q, c, prepare_context) refl) h
    | inr c ↦ elim (Result-cases (native_prepare d.conn.native query a.prepare)) [
      | inr (e, p) ↦ same (simp (q, c, p, prepare_context) refl) h
      | inl (x, p) ↦
          let s : Statement = record {
            native = some x;
            query = query;
            num_input = x.num_input;
            serializes = x.serializes;
            closed = false;
            registered = true;
          } in
          let current = native_prepare-session d.conn.native query a.prepare x p in
          same (simp (q, c, p, prepare_context) refl)
            (add_statement t d s h (refl, (refl, current)) refl)
    ]
  ]
]
