-- ===== src/Session/Resets.antt =====
-- ResetSession keeps the invariant, in its parts.
use datafusion_go.Base.{
  ℕ, suc, ◌+◌, ◌≡◌, refl, ap, ◌∙◌, inl, inr, Bool, true, false, not, ◌&&◌, ◌⊎◌, some, List, [], ◌∷◌,
  length, Bool-cases, Option-cases, arith,
}
use datafusion_go.Errors.{GoError, nil, ErrorType, driver_error, ok, err}
use datafusion_go.Session.State.{Driver, Answers, native_connection_close}
use datafusion_go.Session.Statements.{invalidate_statements}
use datafusion_go.Session.Connections.{
  close_replacement, connect_native, native_connect, run_init, reset_connect, reset_commit,
  is_valid, has_native,
}
use datafusion_go.Session.Invariant.{
  count, IsSound, open_after-live, invalidate_all-live, invalidate_all-FitsSession,
}
use datafusion_go.Session.Preserved.{
  same, Result-cases, close_conn-IsSound, native_connection_close-count,
}

-- With one more open connection, which nothing of the invariant owns yet.
abbrev HasExtra : ℕ → Driver → Type 0
HasExtra t d =
    IsSound t (close_replacement d)
    × (d.open_connections ≡ suc (count d.conn.native + length d.pending))

-- A connection that was made.
abbrev pub connected : Driver → Driver
connected d = record d { sessions = suc d.sessions; open_connections = suc d.open_connections }

pub connect_native-cases :
    (a : Answers) (d : Driver)
    → ((e : GoError) × (connect_native a d ≡ (d, err e)))
      ⊎ (connect_native a d ≡ (connected d, ok d.sessions))
unfolding connect_native
connect_native-cases a d = elim (Option-cases a.connect_ctx) [
  | inr (e, q) ↦ inl (e, simp (q, connect_native) refl)
  | inl q ↦ elim (Bool-cases d.connector.closed) [
    | inl c ↦ inl (
      driver_error ErrorType.closed "datafusion connector is closed" nil,
      simp (q, c, connect_native) refl,
    )
    | inr c ↦ elim (Result-cases (native_connect d.connector.db_open a.connect)) [
      | inr (e, n) ↦ inl (
        driver_error ErrorType.connect "could not connect to DataFusion database" e,
        simp (q, c, n, connect_native) refl,
      )
      | inl (u, n) ↦ inr (simp (q, c, n, connect_native) refl)
    ]
  ]
]

connected-HasExtra : (t : ℕ) (d : Driver) → IsSound t d → HasExtra t (connected d)
connected-HasExtra t d h = (
  record {
    connections = omega (arith, h.connections);
    statements = h.statements;
    sessions = h.sessions;
    present = h.present;
  },
  omega (arith, h.connections),
)

push_pending :
    (t : ℕ) (d : Driver) (session : ℕ)
    → HasExtra t d
    → IsSound t (record d { pending = session ∷ d.pending })
push_pending t d session (h, extra) = record {
  connections = omega (arith, extra);
  statements = h.statements;
  sessions = h.sessions;
  present = h.present;
}

pub reset_connect-IsSound :
    (t : ℕ) (a : Answers) (d : Driver) → IsSound t d → IsSound t (reset_connect a d).0
unfolding reset_connect
reset_connect-IsSound t a d h = elim (connect_native-cases a d) [
  | inl (e, q) ↦ same (simp (q, reset_connect) refl) (close_conn-IsSound t d h)
  | inr q ↦
      let extra = connected-HasExtra t d h in
      elim (Option-cases (run_init a (connected d))) [
        | inr (e, i) ↦
            same (simp (q, i, reset_connect) refl)
              (close_conn-IsSound t (close_replacement (connected d)) extra.0)
        | inl i ↦
            same (simp (q, i, reset_connect) refl) (push_pending t (connected d) d.sessions extra)
      ]
]

pub List-cases {ℓ} :
    {A : Type ℓ} (xs : List A) → (xs ≡ []) ⊎ ((x : A) × (ys : List A) × (xs ≡ x ∷ ys))
List-cases [] = inl refl
List-cases (x ∷ xs) = inr (x, xs, refl)

and_not : (a b : Bool) → (not a && b) ≡ true → a ≡ false
and_not true b h = cc
and_not false b h = refl

abandon :
    (t : ℕ) (d : Driver) (session : ℕ) (rest : List ℕ)
    → IsSound t d
    → d.pending ≡ session ∷ rest
    → IsSound t (close_replacement (record d { pending = rest }))
abandon t d session rest h p = record {
  connections = omega (arith, h.connections, ap length p);
  statements = h.statements;
  sessions = h.sessions;
  present = h.present;
}

-- The connection takes the replacement for its own.
install :
    (t : ℕ) (d : Driver) (session : ℕ) (rest : List ℕ)
    → IsSound t d
    → d.pending ≡ session ∷ rest
    → d.conn.closed ≡ false
    → IsSound t (record (invalidate_statements d) {
      pending = rest;
      conn = record (invalidate_statements d).conn { native = some session };
      open_connections = native_connection_close d.conn.native d.open_connections;
    })
unfolding invalidate_statements
install t d session rest h p c = record {
  connections =
      native_connection_close-count d.conn.native (suc (length rest)) d.open_connections
        (omega (arith, h.connections, ap length p))
      ∙ omega arith;
  statements =
      open_after-live d.conn.native d.conn.statements t d.open_statements h.sessions h.statements
      ∙ omega (arith, invalidate_all-live d.conn.native d.conn.statements h.sessions);
  sessions = invalidate_all-FitsSession d.conn.native d.conn.statements (some session) h.sessions;
  present = rw c refl;
}

pub reset_commit-IsSound : (t : ℕ) (d : Driver) → IsSound t d → IsSound t (reset_commit d).0
unfolding reset_commit is_valid
reset_commit-IsSound t d h = elim (List-cases d.pending) [
  | inl p ↦ same (simp (p, reset_commit) refl) h
  | inr (session, rest, p) ↦ elim (Bool-cases (not d.conn.closed && has_native d.conn.native)) [
    | inr v ↦ same (simp (p, v, reset_commit) refl) (abandon t d session rest h p)
    | inl v ↦
        same (simp (p, v, reset_commit) refl)
          (install t d session rest h p (and_not d.conn.closed _ v))
  ]
]
