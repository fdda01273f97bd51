-- ===== src/Session/Tests.antt =====
-- Examples for the theorems on connections and statements.
use datafusion_go.Base.{ℕ, ◌≡◌, refl, true, false, some, none, List, [], ◌∷◌, length}
use datafusion_go.Base.Int.{pos}
use datafusion_go.Errors.{ok, canceled}
use datafusion_go.Params.Normalize.{Clock}
use datafusion_go.Session.State.{Answers, Driver, native_prepare}
use datafusion_go.Session.Statements.{execute_arrow, prepare_context}
use datafusion_go.Session.Connections.{reset_connect, reset_commit, close_conn}
use datafusion_go.Session.Queries.{direct, run_arrow_query}
use datafusion_go.Session.Invariant.{IsSound}
use datafusion_go.Session.Runs.{Holds, owned, run_arrow_query-Holds}
use datafusion_go.Session.Traces.{
  Op, prepare_op, reset_connect_op, reset_commit_op, close_conn_op, step, run_session, opened,
  run_session-IsSound, run_session-closed, execute_arrow-session,
}
use datafusion_go.Session.Connections.{reset_session}
use datafusion_go.Session.BadConn.{IsBad, reset_session-IsBad}
use datafusion_go.Session.SharedInit.{
  InitAnswers, SharedOp, init_op, initialize_locked, initialize_shared, run_shared, new_shared,
  initialize_shared-once,
}
use datafusion_go.Session.Mutex.{
  Mutex, outside, selecting, sent, holding, refused, Step, lock_enters, sends, gives_up, locked,
  returns, Reaches, start, then, fresh, goes, owners, Reaches-exclusive, Reaches-room,
}

abbrev clock : Clock
clock = record { timestamp_nanos = λ t. ok (pos 0); has_location = λ name. true }

abbrev fine : Answers
fine = record {
  ctx_err = none;
  connect_ctx = none;
  execute_ctx = none;
  prepare = ok (record { inputs = pos 0; serialized = true });
  execute = ok tt;
  connect = ok tt;
  init = none;
  lock = ok tt;
}

abbrev reused : List Op
reused = prepare_op fine "SELECT 1" ∷ reset_connect_op fine ∷ reset_commit_op ∷ []

run_session-IsSound_example : IsSound 0 (run_session reused (opened false true true))
run_session-IsSound_example = run_session-IsSound reused false true true

abbrev before : Driver
before = run_session reused (opened false true true)

run_arrow_query-Holds_example :
    Holds 0 before
      (owned (run_arrow_query clock fine (direct "SELECT 2") [] before).1)
      (run_arrow_query clock fine (direct "SELECT 2") [] before).0
run_arrow_query-Holds_example =
    run_arrow_query-Holds clock fine (direct "SELECT 2") [] before
      (run_session-IsSound reused false true true)

execute_arrow-ran : (execute_arrow fine 0 [] before).1 ≡ ok (record { on_session = 1; args = [] })
unfolding execute_arrow prepare_context reset_connect reset_commit run_session step native_prepare
execute_arrow-ran = refl

execute_arrow-session_example : before.conn.native ≡ some 1
execute_arrow-session_example =
    execute_arrow-session reused false true true fine 0 [] (record { on_session = 1; args = [] })
      execute_arrow-ran

abbrev closed_ops : List Op
closed_ops = prepare_op fine "SELECT 1" ∷ reset_connect_op fine ∷ close_conn_op ∷ []

closed_ops-closed : (run_session closed_ops (opened false true true)).conn.closed ≡ true
unfolding prepare_context reset_connect close_conn run_session step native_prepare
closed_ops-closed = refl

run_session-closed_example :
    ((run_session closed_ops (opened false true true)).open_statements ≡ 0)
    × ((run_session closed_ops (opened false true true)).open_connections
        ≡ length (run_session closed_ops (opened false true true)).pending)
run_session-closed_example = run_session-closed closed_ops false true true closed_ops-closed

abbrev taken : Mutex
taken = goes (goes (goes (fresh 2) 1 selecting false) 1 sent true) 1 holding true

taken-Reaches : Reaches (fresh 2) taken
taken-Reaches = then (then (then start (lock_enters 1 refl)) (sends 1 refl refl)) (locked 1 refl)

abbrev holder : ℕ
holder = 1

Reaches-exclusive_example : holder ≡ holder
Reaches-exclusive_example = Reaches-exclusive 2 taken holder holder taken-Reaches refl refl

abbrev waiting : Mutex
waiting =
    goes (goes (goes (goes (fresh 1) 0 selecting false) 0 refused false) 0 outside false) 0
      selecting false

waiting-Reaches : Reaches (fresh 1) waiting
waiting-Reaches =
    then (then (then (then start (lock_enters 0 refl)) (gives_up 0 refl)) (returns 0 refl))
      (lock_enters 0 refl)

waiting-free : owners waiting.phases ≡ 0
unfolding owners
waiting-free = refl

Reaches-room_example : Step waiting (goes waiting 0 sent true)
Reaches-room_example = Reaches-room 1 waiting 0 waiting-Reaches waiting-free refl

abbrev failing : Answers
failing = record {
  ctx_err = none;
  connect_ctx = none;
  execute_ctx = none;
  prepare = ok (record { inputs = pos 0; serialized = true });
  execute = ok tt;
  connect = ok tt;
  init = some canceled;
  lock = ok tt;
}

reset_session-IsBad_example : IsBad (reset_session failing (opened false true true)).1
reset_session-IsBad_example = reset_session-IsBad failing (opened false true true) refl

abbrev init_fine : InitAnswers
init_fine = record { ctx_err = none; lock = ok tt; locked_ctx = none; init = none }

abbrev init_failing : InitAnswers
init_failing = record { ctx_err = none; lock = ok tt; locked_ctx = none; init = some canceled }

abbrev inits : List SharedOp
inits = init_op init_failing ∷ init_op init_fine ∷ []

inits-ok : (initialize_shared init_fine (run_shared inits (new_shared false))).1 ≡ ok tt
unfolding initialize_shared initialize_locked run_shared
inits-ok = refl

initialize_shared-once_example :
    ((initialize_shared init_fine (run_shared inits (new_shared false))).0.initialized ≡ true)
    × ((initialize_shared init_fine (run_shared inits (new_shared false))).0.runs ≡ 1)
initialize_shared-once_example = initialize_shared-once inits init_fine false inits-ok
