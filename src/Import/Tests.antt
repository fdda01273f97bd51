-- ===== src/Import/Tests.antt =====
-- Runs of registrations.
use datafusion_go.Base.{ℕ, ◌≡◌, refl, true, false, none, some, [], ◌∷◌, ltb, if◌then◌else◌, length}
use datafusion_go.Errors.{canceled, ok, err}
use datafusion_go.Session.State.{check_no_nul_byte}
use datafusion_go.Import.Staging.{
  Environment, ask_ctx, new_import, close_import, open_call, append_call, commit_call, close_call,
}
use datafusion_go.Import.Register.{
  Source, append_batches, commit, register_arrow_reader, session_register_arrow_reader,
}
use datafusion_go.Import.Complete.{Registered, register_arrow_reader-Registered}

-- Everything succeeds, and the context has ended once the log has a number of calls.
abbrev test_environment : ℕ → Environment
test_environment n = record {
  answer = λ log c. ok tt;
  reach = λ log. ok tt;
  ctx_err = λ log i. if ltb (length log) n then none else some canceled;
  write = λ b. ok tt;
}

abbrev two_batches : Source
two_batches = record { exists = true; has_schema = true; batches = 4 ∷ 5 ∷ []; failure = none }

complete_run : register_arrow_reader (test_environment 9) true "t" two_batches ≡ (
  record {
    is_open = false;
    published = true;
    log =
        open_call "t"
        ∷ append_call none
        ∷ append_call (some 4)
        ∷ append_call (some 5)
        ∷ commit_call
        ∷ close_call
        ∷ [];
    checks = 5;
  },
  ok tt,
)
unfolding register_arrow_reader ask_ctx new_import append_batches commit close_import
    check_no_nul_byte
complete_run = refl

-- The context ends behind the first batch.
canceled_run : register_arrow_reader (test_environment 3) true "t" two_batches ≡ (
  record {
    is_open = false;
    published = false;
    log = open_call "t" ∷ append_call none ∷ append_call (some 4) ∷ close_call ∷ [];
    checks = 3;
  },
  err canceled,
)
unfolding register_arrow_reader ask_ctx new_import append_batches commit close_import
    check_no_nul_byte
canceled_run = refl

register_arrow_reader-Registered_example :
    Registered "t" (4 ∷ 5 ∷ []) (register_arrow_reader (test_environment 9) true "t" two_batches)
    × Registered "t"
        (4 ∷ 5 ∷ [])
        (session_register_arrow_reader (test_environment 9) "t" two_batches)
register_arrow_reader-Registered_example =
    register_arrow_reader-Registered (test_environment 9) true "t" two_batches
