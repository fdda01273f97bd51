-- ===== src/Session/SharedInit.antt =====
-- initializeShared of datafusion.go: the init callback of a connector whose connections share a session.
use datafusion_go.Base.{
  ℕ, suc, ◌≡◌, refl, ap, sym, subst, ◌∙◌, inl, inr, Bool, true, false, Option, none, some, List, [],
  ◌∷◌, Bool-cases, Option-cases, if◌then◌else◌,
}
use datafusion_go.Errors.{GoError, nil, ErrorType, Result, ok, err, ◌>>◌, driver_error}
use datafusion_go.Session.State.{check_ctx}
use datafusion_go.Session.Preserved.{Result-cases}

-- The fields of Connector that it uses. `runs` counts the callbacks that succeeded.
pub record Shared : Type 0 where
  pub closed : Bool
  pub initialized : Bool
  pub runs : ℕ

-- What the context answers, before and with the lock, whether the lock is taken, and the callback's answer.
pub record InitAnswers : Type 0 where
  pub ctx_err : Option GoError
  pub lock : Result (Unit {0})
  pub locked_ctx : Option GoError
  pub init : Option GoError

-- The part that holds the lock.
unfoldable pub initialize_locked : InitAnswers → Shared → Shared × Result (Unit {0})
initialize_locked a s = if s.initialized then (s, ok tt) else elim a.locked_ctx [
  | some e ↦ (s, err e)
  | none ↦
      if s.closed
      then (s, err (driver_error ErrorType.closed "datafusion connector is closed" nil))
      else elim a.init [
        | some e ↦ (s, err e)
        | none ↦ (record s { initialized = true; runs = suc s.runs }, ok tt)
      ]
]

-- initializeShared.
unfoldable pub initialize_shared : InitAnswers → Shared → Shared × Result (Unit {0})
unfolding initialize_locked
initialize_shared a s = elim (check_ctx a.ctx_err >> a.lock) [
  | err e ↦ (s, err e)
  | ok u ↦ initialize_locked a s
]

-- The connections that are opened, and the close of the connector, in any order.
pub data SharedOp : Type 0 where
  init_op : InitAnswers → SharedOp
  close_op : SharedOp

unfoldable pub run_shared : List SharedOp → Shared → Shared
run_shared [] s = s
run_shared (init_op a ∷ ops) s = run_shared ops (initialize_shared a s).0
run_shared (close_op ∷ ops) s = run_shared ops (record s { closed = true })

-- The callback has succeeded once if the session is initialized, and else never.
abbrev pub RunsOnce : Shared → Type 0
RunsOnce s = s.runs ≡ (if s.initialized then 1 else 0)

abbrev pub ok_of : Result (Unit {0}) → Bool
ok_of (ok u) = true
ok_of (err e) = false

-- A call keeps that, and answers ok only for a session that is initialized.
abbrev Fine : Shared × Result (Unit {0}) → Type 0
Fine (s, result) = RunsOnce s × (ok_of result ≡ true → s.initialized ≡ true)

refused : (s : Shared) (e : GoError) → RunsOnce s → Fine (s, err e)
refused s e h = (h, λ o. cc)

equal-Fine : {x y : Shared × Result (Unit {0})} → x ≡ y → Fine y → Fine x
equal-Fine e h = subst Fine (sym e) h

initialize_locked-Fine : (a : InitAnswers) (s : Shared) → RunsOnce s → Fine (initialize_locked a s)
unfolding initialize_locked
initialize_locked-Fine a s h = elim (Bool-cases s.initialized) [
  | inl i ↦
      let e : initialize_locked a s ≡ (s, ok tt) = simp (i, initialize_locked) refl in
      equal-Fine e (h, λ o. i)
  | inr i ↦ elim (Option-cases a.locked_ctx) [
    | inr (x, c) ↦
        let e : initialize_locked a s ≡ (s, err x) = simp (i, c, initialize_locked) refl in
        equal-Fine e (refused s x h)
    | inl c ↦ elim (Bool-cases s.closed) [
      | inl k ↦
          let x = driver_error ErrorType.closed "datafusion connector is closed" nil in
          let e : initialize_locked a s ≡ (s, err x) = simp (i, c, k, initialize_locked) refl in
          equal-Fine e (refused s x h)
      | inr k ↦ elim (Option-cases a.init) [
        | inr (x, n) ↦
            let e : initialize_locked a s ≡ (s, err x) =
              simp (i, c, k, n, initialize_locked) refl in
            equal-Fine e (refused s x h)
        | inl n ↦
            let s' : Shared = record s { initialized = true; runs = suc s.runs } in
            let e : initialize_locked a s ≡ (s', ok tt) =
              simp (i, c, k, n, initialize_locked) refl in
            let before : s.runs ≡ 0 = h ∙ ap (λ b. if b then 1 else 0) i in
            equal-Fine e (ap suc before, λ o. refl)
      ]
    ]
  ]
]

initialize_shared-Fine : (a : InitAnswers) (s : Shared) → RunsOnce s → Fine (initialize_shared a s)
unfolding initialize_shared
initialize_shared-Fine a s h = elim (Result-cases (check_ctx a.ctx_err >> a.lock)) [
  | inr (x, q) ↦
      let e : initialize_shared a s ≡ (s, err x) = simp (q, initialize_shared) refl in
      equal-Fine e (refused s x h)
  | inl (u, q) ↦
      let e : initialize_shared a s ≡ initialize_locked a s = simp (q, initialize_shared) refl in
      equal-Fine e (initialize_locked-Fine a s h)
]

run_shared-keeps : (ops : List SharedOp) (s : Shared) → RunsOnce s → RunsOnce (run_shared ops s)
unfolding run_shared
run_shared-keeps [] s h = h
run_shared-keeps (init_op a ∷ ops) s h =
    run_shared-keeps ops (initialize_shared a s).0 (initialize_shared-Fine a s h).0
run_shared-keeps (close_op ∷ ops) s h = run_shared-keeps ops (record s { closed = true }) h

-- A connector before its session is initialized.
abbrev pub new_shared : Bool → Shared
new_shared closed = record { closed = closed; initialized = false; runs = 0 }

-- After any sequence of initializations and closes of a new connector, an initialization that succeeds
-- leaves the session initialized, by a callback that has succeeded exactly once.
pub initialize_shared-once :
    (ops : List SharedOp) (a : InitAnswers) (closed : Bool)
    → (initialize_shared a (run_shared ops (new_shared closed))).1 ≡ ok tt
    → ((initialize_shared a (run_shared ops (new_shared closed))).0.initialized ≡ true)
      × ((initialize_shared a (run_shared ops (new_shared closed))).0.runs ≡ 1)
initialize_shared-once ops a closed e =
    let s = run_shared ops (new_shared closed) in
    let (once, fine) = initialize_shared-Fine a s (run_shared-keeps ops (new_shared closed) refl) in
    let ready = fine (ap ok_of e) in (ready, once ∙ ap (λ b. if b then 1 else 0) ready)
