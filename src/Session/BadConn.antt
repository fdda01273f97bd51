-- ===== src/Session/BadConn.antt =====
-- The errors of ResetSession, by which database/sql knows that a connection must not be used again.
use datafusion_go.Base.{
  ◌≡◌, refl, subst, inl, inr, Bool, true, false, not, ◌&&◌, none, Bool-cases, Option-cases,
}
use datafusion_go.Errors.{GoError, join, bad_conn, Result, ok, err, to_bad_conn, errors_is}
use datafusion_go.Session.State.{Driver, Answers}
use datafusion_go.Session.Connections.{
  run_init, reset_check, reset_connect, reset_commit, reset_session, is_valid, has_native,
}
use datafusion_go.Session.Preserved.{Result-cases}
use datafusion_go.Session.Resets.{connected, connect_native-cases, List-cases}

-- An error, if it is one, matches driver.ErrBadConn.
abbrev pub IsBad : {A : Type 0} → Result A → Type 0
IsBad (ok x) = Unit
IsBad (err e) = errors_is e to_bad_conn ≡ true

joined : (e : GoError) → errors_is (join bad_conn e) to_bad_conn ≡ true
unfolding errors_is
joined e = refl

alone : errors_is bad_conn to_bad_conn ≡ true
unfolding errors_is
alone = refl

reset_check-IsBad : (a : Answers) (d : Driver) → a.ctx_err ≡ none → IsBad (reset_check a d)
unfolding reset_check is_valid
reset_check-IsBad a d c = elim (Bool-cases (not d.conn.closed && has_native d.conn.native)) [
  | inr v ↦ rw (c, v, reset_check) alone
  | inl v ↦ elim (Bool-cases d.connector.shared_session) [
    | inr s ↦ rw (c, v, s, reset_check) tt
    | inl s ↦ elim (Bool-cases d.connector.closed) [
      | inl k ↦ rw (c, v, s, k, reset_check) alone
      | inr k ↦ rw (c, v, s, k, reset_check) tt
    ]
  ]
]

reset_connect-IsBad : (a : Answers) (d : Driver) → IsBad (reset_connect a d).1
unfolding reset_connect
reset_connect-IsBad a d = elim (connect_native-cases a d) [
  | inl (e, q) ↦ simp (q, reset_connect) (joined e)
  | inr q ↦ elim (Option-cases (run_init a (connected d))) [
    | inr (e, i) ↦ simp (q, i, reset_connect) (joined e)
    | inl i ↦ simp (q, i, reset_connect) tt
  ]
]

reset_commit-IsBad : (d : Driver) → IsBad (reset_commit d).1
unfolding reset_commit is_valid
reset_commit-IsBad d = elim (List-cases d.pending) [
  | inl p ↦ simp (p, reset_commit) tt
  | inr (session, rest, p) ↦ elim (Bool-cases (not d.conn.closed && has_native d.conn.native)) [
    | inr v ↦ simp (p, v, reset_commit) alone
    | inl v ↦ simp (p, v, reset_commit) tt
  ]
]

after_check :
    (a : Answers) (d : Driver) (r : Result Bool)
    → reset_check a d ≡ r
    → IsBad r
    → IsBad (reset_session a d).1
unfolding reset_session
after_check a d (err e) q h = rw (q, reset_session) h
after_check a d (ok false) q h = rw (q, reset_session) tt
after_check a d (ok true) q h = elim (Result-cases (reset_connect a d).1) [
  | inr (e, c) ↦ simp (q, c, reset_session) (subst IsBad c (reset_connect-IsBad a d))
  | inl (u, c) ↦ simp (q, c, reset_session) (reset_commit-IsBad (reset_connect a d).0)
]

-- Unless its context has ended before it starts, every error that ResetSession returns matches
-- driver.ErrBadConn, so that the pool discards the connection: also those of the native library and of
-- the callback, which are joined to it.
pub reset_session-IsBad :
    (a : Answers) (d : Driver) → a.ctx_err ≡ none → IsBad (reset_session a d).1
reset_session-IsBad a d c = after_check a d (reset_check a d) refl (reset_check-IsBad a d c)
