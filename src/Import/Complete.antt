-- ===== src/Import/Complete.antt =====
-- A registration publishes the table exactly if it succeeds, with every batch, and leaves no handle.
use datafusion_go.Base.{
  ℕ, String, ◌≡◌, refl, sym, ap, subst, Bool, true, false, none, List, [], ◌∷◌, ◌++◌,
}
use datafusion_go.Errors.{Result, ok, err}
use datafusion_go.Session.State.{check_no_nul_byte}
use datafusion_go.Import.Staging.{
  ImportCall, Environment, Staging, no_staging, call, ask_ctx, ◌>>>◌, checked, opened, new_import,
  publish, commit_import, close_import, open_call, append_call, commit_call, close_call,
}
use datafusion_go.Import.Register.{
  reader_failure, Source, append_batch, append_batches, commit, import_arrow_reader, close_after,
  run_import, import_table, validate_arrow_registration, register_arrow_reader,
  session_register_arrow_reader,
}
use datafusion_go.Import.Shape.{
  Outcome, IsStaged, Ran, Ran->>>, checked-Ran, ask_ctx-Ran, call-Ran, append_batch-Ran,
  append_calls, append_batches-Ran,
}

-- The calls of a registration that succeeds, up to its commit and with its end.
abbrev pub staged_calls : String → List ℕ → List ImportCall
staged_calls name bs = (open_call name ∷ append_call none ∷ []) ++ append_calls bs

abbrev pub all_calls : String → List ℕ → List ImportCall
all_calls name bs = (staged_calls name bs ++ commit_call ∷ []) ++ close_call ∷ []

-- The commit of an open import: the table is published exactly if it succeeds.
abbrev Committed : List ImportCall → Outcome → Type 0
Committed log (s, ok u) =
    (s.is_open ≡ true) × (s.published ≡ true) × (s.log ≡ log ++ commit_call ∷ [])
Committed log (s, err e) = IsStaged true s

Committed->>> :
    (log before : List ImportCall) (p : Outcome) (next : Staging → Outcome)
    → Ran true before p
    → ((s : Staging) → IsStaged true s → s.log ≡ before → Committed log (next s))
    → Committed log (p >>> next)
Committed->>> log before (s, ok u) next h k = k s h.0 h.1
Committed->>> log before (s, err e) next h k = h

publish-Committed :
    (log : List ImportCall) (p : Outcome)
    → Ran true (log ++ commit_call ∷ []) p
    → Committed log (publish p)
publish-Committed log (s, ok u) h = (h.0.0, refl, h.1)
publish-Committed log (s, err e) h = h

commit_import-Committed :
    (env : Environment) (s : Staging) (log : List ImportCall)
    → IsStaged true s
    → s.log ≡ log
    → Committed log (commit_import env s)
unfolding commit_import call
commit_import-Committed env s log h l =
    let called : commit_import env s ≡ publish (call env commit_call s) =
      simp (h.0, commit_import) refl in
    subst (Committed log) (sym called)
      (publish-Committed log (call env commit_call s) (call-Ran true env commit_call s log h l))

commit-Committed :
    (env : Environment) (s : Staging) (log : List ImportCall)
    → IsStaged true s
    → s.log ≡ log
    → Committed log (commit env s)
unfolding commit
commit-Committed env s log h l =
    Committed->>> log log (checked (env.reach s.log) s >>> ask_ctx env) (commit_import env)
      (Ran->>> true log log (checked (env.reach s.log) s) (ask_ctx env)
        (checked-Ran true (env.reach s.log) s log h l) (λ s'. ask_ctx-Ran true env s' log))
      (λ s'. commit_import-Committed env s' log)

import_arrow_reader-Committed :
    (env : Environment) (reader : Source) (s : Staging) (name : String)
    → IsStaged true s
    → s.log ≡ open_call name ∷ []
    → Committed (staged_calls name reader.batches) (import_arrow_reader env reader s)
unfolding import_arrow_reader
import_arrow_reader-Committed env reader s name h l =
    let first = open_call name ∷ append_call none ∷ [] in
    let staged = staged_calls name reader.batches in
    let appended : Ran true staged (append_batch env none s >>> append_batches env reader.batches) =
      Ran->>> true first staged (append_batch env none s) (append_batches env reader.batches)
        (append_batch-Ran env none s (open_call name ∷ []) h l)
        (λ s'. append_batches-Ran env reader.batches s' first) in
    let read =
      Ran->>> true staged staged (append_batch env none s >>> append_batches env reader.batches)
        (checked (reader_failure reader.failure)) appended
        (λ s'. checked-Ran true (reader_failure reader.failure) s' staged) in
    Committed->>> staged staged _ (commit env)
      (Ran->>> true staged staged
        (append_batch env none s
          >>> append_batches env reader.batches
          >>> checked (reader_failure reader.failure))
        (ask_ctx env) read (λ s'. ask_ctx-Ran true env s' staged))
      (λ s'. commit-Committed env s' staged)

-- A registration that is over: the handle is closed, and the table is published exactly if it
-- succeeded, and then by one import of the schema and all batches in their order.
abbrev pub Registered : String → List ℕ → Outcome → Type 0
Registered name bs (s, ok u) =
    (s.is_open ≡ false) × (s.published ≡ true) × (s.log ≡ all_calls name bs)
Registered name bs (s, err e) = IsStaged false s

close_import-open :
    (s : Staging)
    → s.is_open ≡ true
    → close_import s ≡ record s { is_open = false; log = s.log ++ close_call ∷ [] }
unfolding close_import
close_import-open s o = simp (o, close_import) refl

close_after-Registered :
    (name : String) (bs : List ℕ) (p : Outcome)
    → Committed (staged_calls name bs) p
    → Registered name bs (close_after p)
close_after-Registered name bs (s, ok u) (o, p, l) =
    subst (λ s'. Registered name bs (s', ok u)) (sym (close_import-open s o))
      (refl, p, ap (λ calls. calls ++ close_call ∷ []) l)
close_after-Registered name bs (s, err e) (o, p) =
    subst (λ s'. Registered name bs (s', err e)) (sym (close_import-open s o)) (refl, p)

-- What NewImport leaves: a handle with one call if it succeeds, and none else.
abbrev Opened : String → Outcome → Type 0
Opened name (s, ok u) = IsStaged true s × (s.log ≡ open_call name ∷ [])
Opened name (s, err e) = IsStaged false s

opened-Opened :
    (name : String) (p : Outcome) → Ran false (open_call name ∷ []) p → Opened name (opened p)
opened-Opened name (s, ok u) h = ((refl, h.0.1), h.1)
opened-Opened name (s, err e) h = h

Opened->>> :
    (name : String) (p : Outcome) (next : Staging → Outcome)
    → Ran false [] p
    → ((s : Staging) → IsStaged false s → s.log ≡ [] → Opened name (next s))
    → Opened name (p >>> next)
Opened->>> name (s, ok u) next h k = k s h.0 h.1
Opened->>> name (s, err e) next h k = h

new_import-Opened :
    (env : Environment) (name : String) (s : Staging)
    → IsStaged false s
    → s.log ≡ []
    → Opened name (new_import env name s)
unfolding new_import
new_import-Opened env name s h l =
    Opened->>> name (checked (check_no_nul_byte name "table name") s)
      (λ s'. opened (call env (open_call name) s'))
      (checked-Ran false (check_no_nul_byte name "table name") s [] h l)
      (λ s' h' l'.
        opened-Opened name (call env (open_call name) s')
          (call-Ran false env (open_call name) s' [] h' l'))

run_import-Registered :
    (env : Environment) (name : String) (reader : Source) (p : Outcome)
    → Opened name p
    → Registered name reader.batches (run_import env reader p)
unfolding run_import
run_import-Registered env name reader (s, ok u) (h, l) =
    close_after-Registered name reader.batches (import_arrow_reader env reader s)
      (import_arrow_reader-Committed env reader s name h l)
run_import-Registered env name reader (s, err e) h = h

Registered->>> :
    (name : String) (bs : List ℕ) (p : Outcome) (next : Staging → Outcome)
    → Ran false [] p
    → ((s : Staging) → IsStaged false s → s.log ≡ [] → Registered name bs (next s))
    → Registered name bs (p >>> next)
Registered->>> name bs (s, ok u) next h k = k s h.0 h.1
Registered->>> name bs (s, err e) next h k = h

import_table-Registered :
    (env : Environment) (name : String) (reader : Source) (s : Staging)
    → IsStaged false s
    → s.log ≡ []
    → Registered name reader.batches (import_table env name reader s)
unfolding import_table
import_table-Registered env name reader s h l =
    run_import-Registered env name reader (checked (env.reach s.log) s >>> new_import env name) (
      Opened->>> name (checked (env.reach s.log) s) (new_import env name)
        (checked-Ran false (env.reach s.log) s [] h l) (new_import-Opened env name))

-- A check more, behind the ones before it.
check_more : (r : Result (Unit {0})) (p : Outcome) → Ran false [] p → Ran false [] (p >>> checked r)
check_more r p h = Ran->>> false [] [] p (checked r) h (λ s. checked-Ran false r s [])

validate-Ran :
    (env : Environment) (has_conn : Bool) (name : String) (reader : Source)
    → Ran false [] (validate_arrow_registration env has_conn name reader no_staging)
unfolding validate_arrow_registration
validate-Ran env has_conn name reader = check_more _ _ (
    check_more _ _
      (check_more _ _ (check_more _ _ (ask_ctx-Ran false env no_staging [] (refl, refl) refl))))

arrow-Registered :
    (env : Environment) (has_conn : Bool) (name : String) (reader : Source)
    → Registered name reader.batches (register_arrow_reader env has_conn name reader)
unfolding register_arrow_reader
arrow-Registered env has_conn name reader =
    Registered->>> name reader.batches
      (validate_arrow_registration env has_conn name reader no_staging)
      (import_table env name reader) (validate-Ran env has_conn name reader)
      (import_table-Registered env name reader)

session-Registered :
    (env : Environment) (name : String) (reader : Source)
    → Registered name reader.batches (session_register_arrow_reader env name reader)
unfolding session_register_arrow_reader
session-Registered env name reader =
    let asked = ask_ctx-Ran false env no_staging [] (refl, refl) refl in
    Registered->>> name reader.batches _ (import_table env name reader)
      (check_more _ (ask_ctx env no_staging) asked) (import_table-Registered env name reader)

-- Whatever the native library, the connection, the context and the reader do, a registration by copies,
-- on a SQL connection or on a Session, leaves no import handle open, and the table is published exactly
-- if it returns no error: then by one import that got the schema and every batch of the reader, in
-- their order, before its commit.
pub register_arrow_reader-Registered :
    (env : Environment) (has_conn : Bool) (name : String) (reader : Source)
    → Registered name reader.batches (register_arrow_reader env has_conn name reader)
      × Registered name reader.batches (session_register_arrow_reader env name reader)
register_arrow_reader-Registered env has_conn name reader =
    (arrow-Registered env has_conn name reader, session-Registered env name reader)
