-- ===== src/Tests/Whole.antt =====
-- Instances of the theorems on the whole client: the connection to the server opens, the form dials,
-- the server's list of users comes, and the connection with Alice is there.
use model_lib.Prelude.{
  ◌≡◌, ◌⊎◌, All, refl, true, none, [], ◌∷◌, ◌++◌, arith, eq_iff, for_each, drop, length,
}
use model_lib.Actions.{me}
use model_lib.Page.{Page, update}
use model_lib.Page.Turning.{IsOther}
use model_lib.Store.{initial_state, dispatch, slices, in_turn}
use model_lib.Reducers.Media.{join_enabled, media}
use model_lib.Client.Notify.{notify}
use model_lib.Client.PeerHandler.{PeerEvent}
use model_lib.Client.Capture.{done}
use model_lib.Client.Calls.{start}
use model_lib.Client.Connecting.{Payloads, on_connect}
use model_lib.Client.Connecting.Following.{IsServed}
use model_lib.Client.Events.{peer_fires, after_event}
use model_lib.Components.Media.Submitting.{submitted, stream_ended, form_step}
use model_lib.SocketClient
use model_lib.SocketClient.{
  SocketClient, make_client, connect_socket, handle_open, emit_event, message, opening_ends,
  receiving, emit, passed_on, dropped, closing,
}
use model_lib.System.{System, Reachable, begins, hears, fills, lives, on_session, on_app, hear}
use model_lib.System.Hearing.{IsHonest}
use model_lib.System.Invariant.{IsSystem, Reachable-IsSystem, Reachable-join_enabled}
use model_lib.Tests.Client.{users}
use model_lib.Tests.Data.{page, stream_1}
use model_lib.Tests.Environment.{env}

abbrev payloads : Payloads
payloads = record { users = λ s. users; signal = λ s. (s, s); hang_up = λ s. "bob" }

alice_is_other : IsOther "alice"
alice_is_other = (ground arith, λ e. ground (arith, eq_iff "alice" me, e))

bob_is_other : IsOther "bob"
bob_is_other = (ground arith, λ e. ground (arith, eq_iff "bob" me, e))

carol_is_other : IsOther "carol"
carol_is_other = (ground arith, λ e. ground (arith, eq_iff "carol" me, e))

honest : IsHonest payloads
honest = record {
  users = λ s. (alice_is_other, (bob_is_other, (carol_is_other, tt)));
  hang_up = λ s. bob_is_other.0;
}

abbrev silent_page : Page
silent_page = record page { listeners = λ p. none }

abbrev loaded : System
loaded = record {
  client = make_client 2000 5000;
  form = record {
    session = start (record { state = initial_state none "Carol"; page = silent_page });
    stored = none;
    asking = [];
  };
}

first_opens : loaded.client.phases 0 ≡ SocketClient.opening
unfolding make_client connect_socket
first_opens = refl

abbrev open_client : SocketClient
open_client =
    handle_open
      (record loaded.client { phases = update loaded.client.phases 0 SocketClient.opened })

abbrev connected : System
connected =
    record (on_session
      (for_each (hear env "room" payloads)
        (drop (length loaded.client.emitted) open_client.emitted))
      loaded) { client = open_client }

connected-Reachable : Reachable env "room" payloads "ping" connected
connected-Reachable =
    hears loaded open_client (SocketClient.open_socket 0)
      (begins 2000 5000 none "Carol" silent_page (λ p. refl))
      (opening_ends loaded.client 0 first_opens)

can_join : join_enabled connected.form.session.app.state.media ≡ true
unfolding make_client connect_socket handle_open hear on_connect dispatch slices media notify
    in_turn
can_join = refl

emitted-IsServed : All IsServed open_client.emitted
unfolding make_client connect_socket handle_open
emitted-IsServed = (tt, tt)

Reachable-join_enabled_example :
    (emit "ready" open_client
      ≡ passed_on
          (record open_client { sent = open_client.sent ++ (open_client.socket, "ready") ∷ [] }))
    ⊎ ((open_client.phases open_client.socket ≡ closing)
        × (emit "ready" open_client ≡ dropped open_client))
Reachable-join_enabled_example =
    Reachable-join_enabled env "room" payloads honest "ping" connected "ready" connected-Reachable
      emitted-IsServed can_join

abbrev dialled : System
dialled = record connected {
  form =
      form_step env "room" (stream_ended 0 (done stream_1) none)
        (form_step env "room" (submitted "Carol") connected.form);
}

abbrev told_client : SocketClient
told_client = emit_event (message "users" "") open_client

abbrev joined : System
joined =
    record (on_session
      (for_each (hear env "room" payloads)
        (drop (length dialled.client.emitted) told_client.emitted))
      dialled) { client = told_client }

is_open : open_client.phases 0 ≡ SocketClient.opened
unfolding make_client connect_socket handle_open
is_open = refl

abbrev talking : System
talking = on_app (after_event env (peer_fires 7 PeerEvent.connect)) joined

talking-Reachable : Reachable env "room" payloads "ping" talking
talking-Reachable =
    lives joined (peer_fires 7 PeerEvent.connect)
      (hears dialled told_client (SocketClient.receive 0 "users" "")
        (fills (record connected { form = form_step env "room" (submitted "Carol") connected.form })
          (stream_ended 0 (done stream_1) none)
          (fills connected (submitted "Carol") connected-Reachable tt) tt)
        (receiving dialled.client 0 "users" "" is_open))
      tt

Reachable-IsSystem_example : IsSystem env talking
Reachable-IsSystem_example =
    Reachable-IsSystem env "room" payloads honest "ping" talking talking-Reachable
