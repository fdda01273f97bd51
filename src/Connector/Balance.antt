-- ===== src/Connector/Balance.antt =====
-- Opening a connection, a private connection or a session opens all that it needs or leaves nothing.
use datafusion_go.Base.{
  suc, ◌-◌, String, ◌≡◌, refl, sym, ap, subst, ◌∙◌, Bool, true, false, not, Option, List, [], arith,
  if◌then◌else◌,
}
use datafusion_go.Errors.{Result, ok, err}
use datafusion_go.Session.State.{check_ctx}
use datafusion_go.Connector.Dsn.{UrlLibrary, ConnectorOption}
use datafusion_go.Connector.Explicit.{Opened, new_connector}
use datafusion_go.Connector.Open.{
  OpenAnswers, Resources, Opening, answer_connect, connect_checked, native_connect, init_shared,
  run_init, close_on_error, init_connection, connect_connector, close_resources, nothing_open,
  settle_open, open_from, driver_open, new_session, close_connection, close_session,
}

-- One native connection more if Connect succeeds, and else as many as before.
abbrev pub Connects : Resources → Opening → Type 0
Connects before (r, ok u) = (r.connections ≡ suc before.connections) × (r.db_open ≡ before.db_open)
Connects before (r, err e) = (r.connections ≡ before.connections) × (r.db_open ≡ before.db_open)

-- An init callback leaves the connections.
abbrev Leaves : Resources → Resources → Type 0
Leaves before r = (r.connections ≡ before.connections) × (r.db_open ≡ before.db_open)

either : (P : Opening → Type 0) (b : Bool) (x y : Opening) → P x → P y → P (if b then x else y)
either P true x y hx hy = hx
either P false x y hx hy = hy

answer_connect-Connects :
    (answer : Result (Unit {0})) (r : Resources) → Connects r (answer_connect answer r)
unfolding answer_connect
answer_connect-Connects (ok u) r = (refl, refl)
answer_connect-Connects (err e) r = (refl, refl)

connect_checked-Connects :
    (a : OpenAnswers) (c : Result (Unit {0})) (r : Resources) → Connects r (connect_checked a c r)
unfolding connect_checked
connect_checked-Connects a (err e) r = (refl, refl)
connect_checked-Connects a (ok u) r =
    either (Connects r) r.state.closed _ (answer_connect a.connect_native r) (refl, refl)
      (answer_connect-Connects a.connect_native r)

run_init-Leaves :
    (a : OpenAnswers) (shares : Bool) (r : Resources) → Leaves r (run_init a shares r).0
unfolding run_init init_shared
run_init-Leaves a shares r =
    let P : Opening → Type 0 = λ p. Leaves r p.0 in
    either P (not a.has_init) (r, ok tt) (if shares then init_shared a r else (r, a.own_init))
      (refl, refl) (either P shares (init_shared a r) (r, a.own_init) (refl, refl) (refl, refl))

close_on_error-Connects :
    (before r : Resources) (p : Opening)
    → Connects before (r, ok tt)
    → Leaves r p.0
    → Connects before (close_on_error p)
unfolding close_on_error
close_on_error-Connects before r (r', ok u) (c, d) (k, l) = (k ∙ c, l ∙ d)
close_on_error-Connects before r (r', err e) (c, d) (k, l) = (omega (arith, c, k), l ∙ d)

init_connection-Connects :
    (a : OpenAnswers) (shares : Bool) (before : Resources) (p : Opening)
    → Connects before p
    → Connects before (init_connection a shares p)
unfolding init_connection
init_connection-Connects a shares before (r, ok u) h =
    close_on_error-Connects before r (run_init a shares r) h (run_init-Leaves a shares r)
init_connection-Connects a shares before (r, err e) h = h

connect_connector-Connects :
    (a : OpenAnswers) (shares : Bool) (r : Resources) → Connects r (connect_connector a shares r)
unfolding connect_connector native_connect
connect_connector-Connects a shares r =
    init_connection-Connects a shares r (connect_checked a (check_ctx a.ctx_err) r)
      (connect_checked-Connects a (check_ctx a.ctx_err) r)

-- Without a callback the connector stays open.
abbrev IsOpen : Opening → Type 0
IsOpen p = p.0.state.closed ≡ false

plain_answer-IsOpen :
    (a : OpenAnswers) (answer : Result (Unit {0})) (shares : Bool) (r : Resources)
    → a.has_init ≡ false
    → r.state.closed ≡ false
    → IsOpen (init_connection a shares (answer_connect answer r))
unfolding init_connection answer_connect run_init close_on_error
plain_answer-IsOpen a (err e) shares r h o = o
plain_answer-IsOpen a (ok u) shares r h o =
    let made : Resources = record r { connections = suc r.connections } in
    let run : run_init a shares made ≡ (made, ok tt) = simp (h, run_init) refl in
    subst (λ p. IsOpen (close_on_error p)) (sym run) o

plain_connect-IsOpen :
    (a : OpenAnswers) (c : Result (Unit {0})) (shares : Bool) (r : Resources)
    → a.has_init ≡ false
    → r.state.closed ≡ false
    → IsOpen (init_connection a shares (connect_checked a c r))
unfolding init_connection connect_checked
plain_connect-IsOpen a (err e) shares r h o = o
plain_connect-IsOpen a (ok u) shares r h o =
    let run : connect_checked a (ok u) r ≡ answer_connect a.connect_native r =
      simp (o, connect_checked) refl in
    subst (λ p. IsOpen (init_connection a shares p)) (sym run)
      (plain_answer-IsOpen a a.connect_native shares r h o)

-- All that was opened is open, and closing it closes all; or nothing is open.
abbrev pub Settled : Bool → (Resources → Resources) → Opening → Type 0
Settled owns close (r, ok u) =
    (r.db_open ≡ true)
    × (r.connections ≡ suc 0)
    × (r.owns_connector ≡ owns)
    × ((close r).db_open ≡ false)
    × ((close r).connections ≡ 0)
Settled owns close (r, err e) = (r.db_open ≡ false) × (r.connections ≡ 0)

close_resources-closed :
    (r : Resources)
    → r.state.closed ≡ false
    → close_resources r ≡ record r { db_open = false; state = record r.state { closed = true } }
unfolding close_resources
close_resources-closed r o = simp (o, close_resources) refl

settle_open-owned :
    (start : Resources) (p : Opening)
    → start.db_open ≡ true
    → start.connections ≡ 0
    → Connects start p
    → IsOpen p
    → Settled true close_connection (settle_open true p)
unfolding settle_open close_connection
settle_open-owned start (r, ok u) d n (c, e) o =
    let without : Resources = record r { connections = r.connections - 1; owns_connector = true } in
    let one : r.connections ≡ suc 0 = c ∙ ap suc n in
    let after = close_resources-closed without o in
    (
      e ∙ d,
      one,
      refl,
      ap (λ x. x.db_open) after,
      ap (λ x. x.connections) after ∙ ap (λ k. k - 1) one,
    )
settle_open-owned start (r, err e) d n (c, f) o =
    let after = close_resources-closed r o in
    (ap (λ x. x.db_open) after, ap (λ x. x.connections) after ∙ c ∙ n)

settle_open-session :
    (start : Resources) (p : Opening)
    → start.db_open ≡ true
    → start.connections ≡ 0
    → Connects start p
    → IsOpen p
    → Settled false close_session (settle_open false p)
unfolding settle_open close_session close_connection
settle_open-session start (r, ok u) d n (c, e) o =
    let without : Resources = record r {
      connections = r.connections - 1;
      owns_connector = false;
    } in
    let one : r.connections ≡ suc 0 = c ∙ ap suc n in
    let after = close_resources-closed without o in
    (
      e ∙ d,
      one,
      refl,
      ap (λ x. x.db_open) after,
      ap (λ x. x.connections) after ∙ ap (λ k. k - 1) one,
    )
settle_open-session start (r, err e) d n (c, f) o =
    let after = close_resources-closed r o in
    (ap (λ x. x.db_open) after, ap (λ x. x.connections) after ∙ c ∙ n)

open_from-owned :
    (a : OpenAnswers) (made : Result Opened)
    → a.has_init ≡ false
    → Settled true close_connection (open_from a true made)
unfolding open_from connect_connector native_connect
open_from-owned a (err e) h = (refl, refl)
open_from-owned a (ok made) h =
    let start : Resources = record nothing_open { db_open = true } in
    settle_open-owned start (connect_connector a made.shares start) refl refl
      (connect_connector-Connects a made.shares start)
      (plain_connect-IsOpen a (check_ctx a.ctx_err) made.shares start h refl)

open_from-session :
    (a : OpenAnswers) (made : Result Opened)
    → a.has_init ≡ false
    → Settled false close_session (open_from a false made)
unfolding open_from connect_connector native_connect
open_from-session a (err e) h = (refl, refl)
open_from-session a (ok made) h =
    let start : Resources = record nothing_open { db_open = true } in
    settle_open-session start (connect_connector a made.shares start) refl refl
      (connect_connector-Connects a made.shares start)
      (plain_connect-IsOpen a (check_ctx a.ctx_err) made.shares start h refl)

-- Whatever the DSN, the options and the answers of the library and the context: Driver.Open and
-- NewSession leave the database and one native connection open if they succeed, which closing the
-- connection, or the session, closes again; if they fail, they leave nothing open. Connect adds one
-- native connection, or none if it fails, also by its init callback.
pub opening-Settled :
    (lib : UrlLibrary) (a : OpenAnswers) (dsn : String) (options : List (Option ConnectorOption))
    (shares : Bool) (r : Resources)
    → Settled true close_connection (driver_open lib a dsn)
      × Settled false close_session (new_session lib a dsn options)
      × Connects r (connect_connector a shares r)
unfolding driver_open new_session
opening-Settled lib a dsn options shares r = (
  open_from-owned (record a { has_init = false }) (new_connector lib a.open_database dsn []) refl,
  open_from-session (record a { has_init = false }) (new_connector lib a.open_database dsn options)
      refl,
  connect_connector-Connects a shares r,
)
