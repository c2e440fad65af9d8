-- ===== src/Tests/Calls.antt =====
-- Instances of the theorems on dialling and on the connection to the server.
use model_lib.Prelude.{String, ◌≡◌, refl, true, none, List, [], ◌∷◌, any, ◌==◌, arith}
use model_lib.Page.{update}
use model_lib.Store.{App}
use model_lib.Reducers.Media.{in_call}
use model_lib.Client.Calls.{
  Session, Event, start, step, run, dial, call, listen, remove_event_listeners, handle_event, react,
  settle, hang_up_call,
}
use model_lib.Client.Calls.Handlers.{IsSound, run-IsSound}
use model_lib.Client.Calls.Outcomes.{dial_answered}
use model_lib.Client.Calls.Delivery.{Once, run-Once, run-settled}
use model_lib.SocketClient
use model_lib.SocketClient.{
  SocketClient, make_client, handle_open, connect_socket, Step, opening_ends, Reachable, made,
  after, emit, passed_on,
}
use model_lib.SocketClient.Modes.{IsClient}
use model_lib.SocketClient.Connection.{Reachable-IsClient}
use model_lib.Tests.Client.{users}
use model_lib.Tests.Environment
use model_lib.Tests.Environment.{env}

abbrev app : App
app = Environment.in_call

abbrev room : String
room = "room"

abbrev dials : List Event
dials =
    Event.dial_called "Carol" none ∷ Event.hang_up_called none ∷ Event.dial_called "Carol" none ∷ []

run-IsSound_example : IsSound (run env room dials (start app))
run-IsSound_example = run-IsSound env room app dials

IsSound-start : IsSound (start app)
IsSound-start = run-IsSound env room app []

dial_answered_example :
    ((run env room
        (Event.dial_called "Carol" none ∷ Event.users_received users ∷ [])
        (start app)).app.state.media.dial_state
      ≡ in_call)
    × ((step env room (Event.timer_fired 0) (
          run env room
            (Event.dial_called "Carol" none ∷ Event.users_received users ∷ [])
            (start app))).app
        ≡ (run env room
            (Event.dial_called "Carol" none ∷ Event.users_received users ∷ [])
            (start app)).app)
dial_answered_example = dial_answered env room "Carol" users (start app) IsSound-start

abbrev answered : Session
answered =
    run env room
      (Event.dial_called "Carol" none
        ∷ Event.dial_called "Caro" none
        ∷ Event.users_received users
        ∷ [])
      (start app)

run-Once_example : Once env room (run env room dials (start app)) "alice" "offer" users
run-Once_example = run-Once env room app dials "alice" "offer" users

run_dials : Unit {0}
unfolding step handle_event react dial call listen remove_event_listeners hang_up_call settle
run_dials = tt

two_dials : (run env room dials (start app)).dials_made ≡ 2
unfolding run_dials
two_dials = refl

run-settled_example :
    (step env room (Event.timer_fired 0) (run env room dials (start app))).settled 0 ≡ true
run-settled_example = run-settled env room app dials 0 (omega (arith, two_dials))

-- A client whose first WebSocket has opened.
abbrev new_client : SocketClient
new_client = make_client 2000 5000

first_opens : new_client.phases 0 ≡ SocketClient.opening
unfolding make_client connect_socket
first_opens = refl

abbrev open_client : SocketClient
open_client =
    handle_open (record new_client { phases = update new_client.phases 0 SocketClient.opened })

open_client-Reachable : Reachable "ping" open_client
open_client-Reachable =
    after new_client open_client (SocketClient.open_socket 0) (made 2000 5000)
      (opening_ends new_client 0 first_opens)

Reachable-IsClient_example : IsClient open_client
Reachable-IsClient_example = Reachable-IsClient "ping" open_client open_client-Reachable

it_pings : any (λ j. j == 1) open_client.intervals ≡ true
unfolding make_client connect_socket handle_open
it_pings = refl
