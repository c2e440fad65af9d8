-- ===== src/Tests/Connecting.antt =====
-- Instances of the theorems on the form that dials, and on actions that are promises.
use model_lib.Prelude.{some, ℕ, suc, ◌≡◌, refl, none, List, [], ◌∷◌, ◌++◌}
use model_lib.Page.{Call, SocketMessage}
use model_lib.Actions.{Async, pending, resolved, rejected}
use model_lib.Store.{App, initial_state}
use model_lib.Reducers.Media.{in_call, hung_up, dialling, join_enabled}
use model_lib.Client.Calls.{Event, start, handler, resolves}
use model_lib.Client.Calls.Handlers.{run-IsSound}
use model_lib.Client.Capture.{done}
use model_lib.Client.Middleware.{Dispatched, reduced, threw, Told, promised, middleware}
use model_lib.Client.Middleware.Ending.{Settles, middleware-Settles}
use model_lib.Components.Media.Submitting.{
  Form, submitted, stream_ended, other, form_step, run_form,
}
use model_lib.Components.Media.Submitting.Dialled.{submit_dials}
use model_lib.Components.Media.Submitting.Twice.{submit_twice_hangs_up}
use model_lib.Tests.Client.{users}
use model_lib.Tests.Data.{page, stream_1}
use model_lib.Tests.Environment.{env}

abbrev app : App
app = record { state = initial_state none "Carol"; page = page }

abbrev fresh : Form
fresh = record { session = start app; stored = none; asking = [] }

abbrev once : Form
once = run_form env "room" (submitted "Carol" ∷ stream_ended 0 (done stream_1) none ∷ []) fresh

submit_dials_example :
    (once.session.dials_made ≡ 1)
    × (once.session.app.state.media.dial_state ≡ dialling)
    × (once.session.on_users ≡ handler ∷ resolves 0 ∷ [])
    × (once.stored ≡ some "Carol")
    × ((earlier : List Call) × (once.session.app.page.calls
          ≡ earlier ++ Call.socket_emit (SocketMessage.ready "room" "Carol" "carol") ∷ []))
submit_dials_example = submit_dials env "room" "Carol" (done stream_1) none (start app) refl

abbrev asked : Form
asked = form_step env "room" (submitted "Carol") fresh

abbrev twice : Form
twice =
    run_form env "room"
      (submitted "Carol"
        ∷ stream_ended 0 (done stream_1) none
        ∷ stream_ended 0 (done stream_1) none
        ∷ other (Event.users_received users)
        ∷ [])
      asked

submit_twice_hangs_up_example :
    (join_enabled asked.session.app.state.media ≡ join_enabled app.state.media)
    × (twice.session.app.state.media.dial_state ≡ in_call)
    × ((form_step env "room" (other (Event.timer_fired 0)) twice).session.app.state.media.dial_state
        ≡ hung_up)
    × ((form_step env "room" (other (Event.timer_fired 0)) twice).session.app.state.peers
        ≡ twice.session.app.state.peers)
submit_twice_hangs_up_example =
    submit_twice_hangs_up env "room" "Carol" "Carol" (done stream_1) (done stream_1) users none
      (start app) (run-IsSound env "room" app [])

-- A store that counts what it is given and throws on a resolved status.
abbrev counting : ℕ → Async ℕ → Dispatched ℕ
counting n pending = reduced (suc n)
counting n (resolved x) = threw (record { name = "TypeError"; message = "no such key" })
counting n (rejected e) = reduced (suc n)

abbrev untold : Told ℕ ℕ
untold = record { state = 0; statuses = [] }

middleware-Settles_example :
    (after : Told ℕ ℕ) × (middleware counting (done 7) untold ≡ promised (after, done 7))
    × Settles counting 1 after
middleware-Settles_example =
    middleware-Settles counting (λ s e. (suc s, refl)) (done 7) untold 1 refl
