-- ===== src/Exec/Script.antt =====
-- ExecStatements of exec.go: statements that run in order, up to the first that fails.
use datafusion_go.Base.{
  ℕ, suc, sym, ◌⊎◌, ◌+◌, String, ◌≡◌, refl, ap, subst, ◌∙◌, inl, inr, false, not, List, [], ◌∷◌,
  ◌++◌, arith, if◌then◌else◌, Bool-cases, When, length,
}
use datafusion_go.Base.Int.{pos}
use datafusion_go.Errors.{GoError, wrapf, int_arg, Result, ok, err}
use datafusion_go.Params.Normalize.{is_blank}

abbrev pub Run : Type 0
Run = List String × Result (Unit {0})

-- The statement `i` of a script: its error is returned, and else the rest runs.
unfoldable pub settle_statement : ℕ → Result (Unit {0}) → String → Run → Run
settle_statement i (ok u) statement rest = (statement ∷ rest.0, rest.1)
settle_statement i (err e) statement rest =
    (statement ∷ [], err (wrapf "datafusion statement %d: %w" (int_arg (pos (suc i)) ∷ []) e))

-- The loop, from the statement `i` on: the statements that were executed, and the result. `exec` is
-- ExecContext, which answers for the statement at its position.
unfoldable pub exec_from : (ℕ → String → Result (Unit {0})) → ℕ → List String → Run
unfolding settle_statement
exec_from exec i [] = ([], ok tt)
exec_from exec i (s ∷ rest) =
    let later = exec_from exec (suc i) rest in
    if is_blank s then later else settle_statement i (exec i s) s later

unfoldable pub exec_statements : (ℕ → String → Result (Unit {0})) → List String → Run
unfolding exec_from
exec_statements exec statements = exec_from exec 0 statements

abbrev pub non_blank : List String → List String
non_blank [] = []
non_blank (s ∷ rest) = if is_blank s then non_blank rest else s ∷ non_blank rest

-- Each statement that is not blank succeeds.
abbrev pub AllSucceed : (ℕ → String → Result (Unit {0})) → ℕ → List String → Type 0
AllSucceed exec i [] = Unit
AllSucceed exec i (s ∷ rest) =
    When (not (is_blank s)) (exec i s ≡ ok tt) × AllSucceed exec (suc i) rest

abbrev FailsAt : ℕ → List String → String → GoError → Run → Type 0
FailsAt n before bad e run = run ≡ (
  non_blank before ++ bad ∷ [],
  err (wrapf "datafusion statement %d: %w" (int_arg (pos (suc n)) ∷ []) e),
)

exec_from-first_error :
    (exec : ℕ → String → Result (Unit {0})) (i n : ℕ) (before rest : List String) (bad : String)
    (e : GoError)
    → i + length before ≡ n
    → AllSucceed exec i before
    → is_blank bad ≡ false
    → exec n bad ≡ err e
    → FailsAt n before bad e (exec_from exec i (before ++ bad ∷ rest))
unfolding exec_from settle_statement
exec_from-first_error exec i n [] rest bad e q h b f =
    let here : i ≡ n = omega (arith, q) in
    let g : exec i bad ≡ err e = ap (λ k. exec k bad) here ∙ f in
    let run : exec_from exec i (bad ∷ rest)
        ≡ (bad ∷ [], err (wrapf "datafusion statement %d: %w" (int_arg (pos (suc i)) ∷ []) e)) =
      simp (b, g, exec_from, settle_statement) refl in
    subst (λ k. FailsAt k [] bad e (exec_from exec i (bad ∷ rest))) here run
exec_from-first_error exec i n (s ∷ before) rest bad e q h b f =
    let ih = exec_from-first_error exec (suc i) n before rest bad e (omega (arith, q)) h.1 b f in
    elim (Bool-cases (is_blank s)) [
      | inl k ↦ simp (k, exec_from) ih
      | inr k ↦
          let fine : exec i s ≡ ok tt = subst (λ x. When (not x) (exec i s ≡ ok tt)) k h.0 in
          simp (k, fine, exec_from, settle_statement) (ap (λ run. (s ∷ run.0, run.1)) ih)
    ]

-- ExecStatements executes the statements that are not blank in their order, and stops at the first
-- that fails: with its error, under its position among all the statements, counted from one. What
-- comes behind it does not matter.
pub exec_statements-first_error :
    (exec : ℕ → String → Result (Unit {0})) (before rest : List String) (bad : String) (e : GoError)
    → AllSucceed exec 0 before
    → is_blank bad ≡ false
    → exec (length before) bad ≡ err e
    → exec_statements exec (before ++ bad ∷ rest) ≡ (
      non_blank before ++ bad ∷ [],
      err (wrapf "datafusion statement %d: %w" (int_arg (pos (suc (length before))) ∷ []) e),
    )
unfolding exec_statements
exec_statements-first_error exec before rest bad e h b f =
    exec_from-first_error exec 0 (length before) before rest bad e (omega arith) h b f

-- A first statement that fails, behind statements that are blank or succeed.
pub record FirstFailure (exec : ℕ → String → Result (Unit {0})) (i : ℕ) (statements : List String)
    : Type 0 where
  pub before : List String
  pub bad : String
  pub rest : List String
  pub cause : GoError
  pub parts : statements ≡ before ++ bad ∷ rest
  pub earlier : AllSucceed exec i before
  pub not_blank : is_blank bad ≡ false
  pub fails : exec (i + length before) bad ≡ err cause

behind :
    (exec : ℕ → String → Result (Unit {0})) (i : ℕ) (s : String) (rest : List String)
    → When (not (is_blank s)) (exec i s ≡ ok tt)
    → FirstFailure exec (suc i) rest
    → FirstFailure exec i (s ∷ rest)
behind exec i s rest h f = record {
  before = s ∷ f.before;
  bad = f.bad;
  rest = f.rest;
  cause = f.cause;
  parts = ap (λ x. s ∷ x) f.parts;
  earlier = (h, f.earlier);
  not_blank = f.not_blank;
  fails = subst (λ k. exec k f.bad ≡ err f.cause) (omega arith) f.fails;
}

abbrev first_here :
    (exec : ℕ → String → Result (Unit {0})) (i : ℕ) (s : String) (rest : List String) (e : GoError)
    → is_blank s ≡ false
    → exec i s ≡ err e
    → FirstFailure exec i (s ∷ rest)
first_here exec i s rest e b f = record {
  before = [];
  bad = s;
  rest = rest;
  cause = e;
  parts = refl;
  earlier = tt;
  not_blank = b;
  fails = subst (λ k. exec k s ≡ err e) (omega arith) f;
}

settled : (r : Result (Unit {0})) → (r ≡ ok tt) ⊎ ((e : GoError) × (r ≡ err e))
settled (ok u) = inl refl
settled (err e) = inr (e, refl)

Splits : (ℕ → String → Result (Unit {0})) → ℕ → List String → Type 0
Splits exec i statements = AllSucceed exec i statements ⊎ FirstFailure exec i statements

pass :
    (exec : ℕ → String → Result (Unit {0})) (i : ℕ) (s : String) (rest : List String)
    → When (not (is_blank s)) (exec i s ≡ ok tt)
    → Splits exec (suc i) rest
    → Splits exec i (s ∷ rest)
unfolding Splits
pass exec i s rest h (inl all) = inl (h, all)
pass exec i s rest h (inr f) = inr (behind exec i s rest h f)

split :
    (exec : ℕ → String → Result (Unit {0})) (i : ℕ) (statements : List String)
    → Splits exec i statements
unfolding Splits
split exec i [] = inl tt
split exec i (s ∷ rest) =
    let later = split exec (suc i) rest in
    elim (Bool-cases (is_blank s)) [
      | inl k ↦ pass exec i s rest (subst (λ x. When (not x) (exec i s ≡ ok tt)) (sym k) tt) later
      | inr k ↦ elim (settled (exec i s)) [
        | inl q ↦ pass exec i s rest (subst (λ x. When (not x) (exec i s ≡ ok tt)) (sym k) q) later
        | inr q ↦ inr (first_here exec i s rest q.0 k q.1)
      ]
    ]

exec_from-all :
    (exec : ℕ → String → Result (Unit {0})) (i : ℕ) (statements : List String)
    → AllSucceed exec i statements
    → exec_from exec i statements ≡ (non_blank statements, ok tt)
unfolding exec_from settle_statement
exec_from-all exec i [] h = refl
exec_from-all exec i (s ∷ rest) h =
    let ih = exec_from-all exec (suc i) rest h.1 in
    elim (Bool-cases (is_blank s)) [
      | inl k ↦ simp (k, exec_from) ih
      | inr k ↦
          let fine : exec i s ≡ ok tt = subst (λ x. When (not x) (exec i s ≡ ok tt)) k h.0 in
          simp (k, fine, exec_from, settle_statement) (ap (λ run. (s ∷ run.0, run.1)) ih)
    ]

-- Either all statements that are not blank succeed, and a run executes just these, or one is the first
-- to fail, and a run ends with it.
abbrev pub StopsAtFailure : (ℕ → String → Result (Unit {0})) → List String → Run → Type 0
StopsAtFailure exec statements run =
    (AllSucceed exec 0 statements × (run ≡ (non_blank statements, ok tt)))
    ⊎ ((f : FirstFailure exec 0 statements) × FailsAt (length f.before) f.before f.bad f.cause run)

stops :
    (exec : ℕ → String → Result (Unit {0})) (statements : List String)
    → Splits exec 0 statements
    → StopsAtFailure exec statements (exec_statements exec statements)
unfolding Splits exec_statements
stops exec statements (inl all) = inl (all, exec_from-all exec 0 statements all)
stops exec statements (inr f) =
    let run =
      exec_statements-first_error exec f.before f.rest f.bad f.cause f.earlier f.not_blank
        (subst (λ k. exec k f.bad ≡ err f.cause) (omega arith) f.fails) in
    inr (f, ap (exec_statements exec) f.parts ∙ run)

-- ExecStatements executes the statements that are not blank in their order, all of them if they
-- succeed. Else it stops at the first that fails, with its error under its position among all the
-- statements, counted from one; what comes behind it is not executed.
pub exec_statements-StopsAtFailure :
    (exec : ℕ → String → Result (Unit {0})) (statements : List String)
    → StopsAtFailure exec statements (exec_statements exec statements)
exec_statements-StopsAtFailure exec statements = stops exec statements (split exec 0 statements)
