-- ===== src/Import/Shape.antt =====
-- The steps of a registration: what each leaves, and the calls that it makes.
use datafusion_go.Base.{
  ℕ, suc, ◌≡◌, refl, sym, ap, subst, ◌∙◌, Bool, true, false, Option, some, List, [], ◌∷◌, ◌++◌, map,
}
use datafusion_go.Errors.{Result, ok, err}
use datafusion_go.Import.Staging.{
  ImportCall, Environment, Staging, call, ask_ctx, ◌>>>◌, checked, append_import, append_call,
}
use datafusion_go.Import.Register.{append_batch, append_batches}
use mathlib.Core.List.{append_assoc, append-nil}

abbrev pub Outcome : Type 0
Outcome = Staging × Result (Unit {0})

-- The handle is open or not, and nothing is published.
abbrev pub IsStaged : Bool → Staging → Type 0
IsStaged held s = (s.is_open ≡ held) × (s.published ≡ false)

-- A run that leaves the handle as it is and publishes nothing: where it succeeds, the log is the given
-- one.
abbrev pub Ran : Bool → List ImportCall → Outcome → Type 0
Ran held log (s, ok u) = IsStaged held s × (s.log ≡ log)
Ran held log (s, err e) = IsStaged held s

pub Ran->>> :
    (held : Bool) (log log' : List ImportCall) (p : Outcome) (next : Staging → Outcome)
    → Ran held log p
    → ((s : Staging) → IsStaged held s → s.log ≡ log → Ran held log' (next s))
    → Ran held log' (p >>> next)
Ran->>> held log log' (s, ok u) next h k = k s h.0 h.1
Ran->>> held log log' (s, err e) next h k = h

pub checked-Ran :
    (held : Bool) (r : Result (Unit {0})) (s : Staging) (log : List ImportCall)
    → IsStaged held s
    → s.log ≡ log
    → Ran held log (checked r s)
checked-Ran held (ok u) s log h l = (h, l)
checked-Ran held (err e) s log h l = h

pub ask_ctx-Ran :
    (held : Bool) (env : Environment) (s : Staging) (log : List ImportCall)
    → IsStaged held s
    → s.log ≡ log
    → Ran held log (ask_ctx env s)
unfolding ask_ctx
ask_ctx-Ran held env s log h l = checked-Ran held _ (record s { checks = suc s.checks }) log h l

pub call-Ran :
    (held : Bool) (env : Environment) (c : ImportCall) (s : Staging) (log : List ImportCall)
    → IsStaged held s
    → s.log ≡ log
    → Ran held (log ++ c ∷ []) (call env c s)
unfolding call
call-Ran held env c s log h l =
    checked-Ran held (env.answer s.log c) (record s { log = s.log ++ c ∷ [] }) (log ++ c ∷ []) h
      (ap (λ calls. calls ++ c ∷ []) l)

append_import-Ran :
    (env : Environment) (batch : Option ℕ) (s : Staging) (log : List ImportCall)
    → IsStaged true s
    → s.log ≡ log
    → Ran true (log ++ append_call batch ∷ []) (append_import env batch s)
unfolding append_import call
append_import-Ran env batch s log h l =
    let called : append_import env batch s ≡ call env (append_call batch) s =
      simp (h.0, append_import) refl in
    subst (Ran true (log ++ append_call batch ∷ [])) (sym called)
      (call-Ran true env (append_call batch) s log h l)

pub append_batch-Ran :
    (env : Environment) (batch : Option ℕ) (s : Staging) (log : List ImportCall)
    → IsStaged true s
    → s.log ≡ log
    → Ran true (log ++ append_call batch ∷ []) (append_batch env batch s)
unfolding append_batch
append_batch-Ran env batch s log h l =
    Ran->>> true log _ (checked (env.write batch) s) (append_import env batch)
      (checked-Ran true (env.write batch) s log h l) (λ s'. append_import-Ran env batch s' log)

-- The calls that append all batches of a list.
abbrev pub append_calls : List ℕ → List ImportCall
append_calls bs = map (λ b. append_call (some b)) bs

pub append_batches-Ran :
    (env : Environment) (bs : List ℕ) (s : Staging) (log : List ImportCall)
    → IsStaged true s
    → s.log ≡ log
    → Ran true (log ++ append_calls bs) (append_batches env bs s)
unfolding append_batches
append_batches-Ran env [] s log h l = (h, l ∙ sym (append-nil log))
append_batches-Ran env (b ∷ bs) s log h l =
    let first = log ++ append_call (some b) ∷ [] in
    let steps : Ran true (first ++ append_calls bs) (append_batches env (b ∷ bs) s) =
      Ran->>> true first _ (ask_ctx env s >>> append_batch env (some b)) (append_batches env bs)
        (Ran->>> true log first (ask_ctx env s) (append_batch env (some b))
          (ask_ctx-Ran true env s log h l) (λ s'. append_batch-Ran env (some b) s' log))
        (λ s'. append_batches-Ran env bs s' first) in
    subst (λ l. Ran true l (append_batches env (b ∷ bs) s))
      (append_assoc log (append_call (some b) ∷ []) (append_calls bs)) steps
