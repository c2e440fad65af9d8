-- ===== src/Tests/Client.antt =====
-- Runs and instances of the theorems on what the client does when something happens.
use model_lib.Prelude.{
  List, String, ◌≡◌, ◌≢◌, refl, true, false, ◌&&◌, none, some, [], ◌∷◌, ◌==◌, is_some, All, any,
  for_each, arith, eq_iff,
}
use model_lib.Prelude.Dict.{get, put}
use model_lib.Lodash.{IsPlainKey}
use model_lib.Actions.{Action, me, PeerMessage, MediaStream, Track, Error, StreamTrackPayload}
use model_lib.Page.{safe_create_object_url, Call}
use model_lib.Reducers.Streams.Invariant.{IsWellFormed, empty-IsWellFormed, streams-IsWellFormed}
use model_lib.Prelude.Text.{split}
use model_lib.Reducers.Streams.{
  StreamWithUrl, StreamsState, streams, add_stream, add_resolved, get_stream_with_user_id,
}
use model_lib.Store.{App, dispatch}
use model_lib.Store.Refinement.{View, view, act_view, dispatches-view}
use model_lib.Client.PeerHandler.{threw, returned, handle_connect, handle_close, handle_data}
use model_lib.Client.SocketHandler.{Users, is_new, handle_users}
use model_lib.Client.Chat.{own_message, can_send, send_message}
use model_lib.Client.Chat.Reaching.{ended, all_can_send, reached, sends}
use model_lib.Client.Calls.{Session, start, hang_up, hang_up_call}
use model_lib.Client.Joining.{listed, handle_users_connects}
use model_lib.Client.Leaving.{handle_close_clears, handle_close_ne}
use model_lib.Client.Silence.{IsUnheard, hang_up-IsUnheard}
use model_lib.Client.Sharing.{noted, handle_connect-given_before}
use model_lib.Client.Messaging.{arrived, send_message_lem, handle_data-stringify}
use model_lib.Client.Events.{ClientEvent, acts, users_come, run_events}
use model_lib.Client.Events.Histories.{run_events-handle_close}
use model_lib.Store.{initial_state}
use model_lib.Client.Destroying.{hang_up-fire_timeout}
use model_lib.Page.{fire_timeout, peer_destroy, SocketMessage}
use model_lib.Tests.Data.{lodash, page, stream_1, stream_2, two_streams}
use model_lib.Tests.Environment.{env, in_call, bob_comes}

-- Bob joins, and Alice is there already.
abbrev pub users : Users
users = record {
  initiator = "bob";
  peer_ids = "alice" ∷ "bob" ∷ "carol" ∷ [];
  nicknames = ("alice", "Alice") ∷ ("bob", "") ∷ ("carol", "Carol") ∷ [];
}

alice_there : get in_call.state.peers "alice" ≡ some 3
unfolding get
alice_there = refl

alice_is_not_new :
    (listed env users.peer_ids "alice" && is_new env in_call.state.peers "alice") ≡ false
unfolding get
alice_is_not_new = refl

handle_users_connects_example :
    is_some (get (handle_users env none users in_call).state.peers "bob") ≡ true
handle_users_connects_example = handle_users_connects env none users in_call "bob" refl refl

alice_is_plain : IsPlainKey "alice"
alice_is_plain = ground arith

abbrev alice_sends : MediaStream → Action
alice_sends stream = Action.stream_add (record { user_id = "alice"; type = none; stream = stream })

two_streams-IsWellFormed : IsWellFormed two_streams
unfolding streams add_stream add_resolved get_stream_with_user_id safe_create_object_url split get
    put
two_streams-IsWellFormed =
    streams-IsWellFormed lodash (streams lodash [] (alice_sends stream_1) page).0
      (alice_sends stream_2) page tt
      (streams-IsWellFormed lodash [] (alice_sends stream_1) page tt empty-IsWellFormed)

alice_is_not_bob : ◌≢◌ {A = String} "alice" "bob"
alice_is_not_bob e = ground (arith, eq_iff "alice" "bob", e)

handle_close_clears_example :
    (get (handle_close env "alice" in_call).state.peers "alice" ≡ none)
    × (get (handle_close env "alice" in_call).state.streams "alice" ≡ none)
    × (get (handle_close env "alice" in_call).state.nicknames "alice" ≡ none)
handle_close_clears_example =
    handle_close_clears env "alice" in_call alice_is_plain two_streams-IsWellFormed

handle_close_ne_example :
    (get (handle_close env "alice" in_call).state.peers "bob" ≡ get in_call.state.peers "bob")
    × (get (handle_close env "alice" in_call).state.streams "bob" ≡ get in_call.state.streams "bob")
handle_close_ne_example =
    handle_close_ne env "alice" "bob" in_call alice_is_plain two_streams-IsWellFormed
      alice_is_not_bob

hang_up-IsUnheard_example :
    ((hang_up env in_call).state.streams ≡ [])
    × All
        (λ e.
          All
            (λ s. All (IsUnheard env (hang_up env in_call)) (page.tracks s.stream.ref))
            e.1.streams)
        two_streams
hang_up-IsUnheard_example = hang_up-IsUnheard env in_call

abbrev own_stream : StreamWithUrl
own_stream = record { stream = stream_1; type = none; url = none }

abbrev add_own : StreamsState → StreamsState
add_own d = put d me (record { user_id = me; streams = own_stream ∷ [] })

-- Carol's stream was shared with Alice before Alice's connection was there.
abbrev shared_early : App
shared_early = record {
  state = record in_call.state { streams = add_own in_call.state.streams };
  page = record page { calls = Call.peer_add_track 3 10 stream_1 ∷ [] };
}

handle_connect-given_before_example :
    (handle_connect env "alice" shared_early ≡ threw (noted env shared_early))
    × ((noted env shared_early).page.calls ≡ shared_early.page.calls)
unfolding get put
handle_connect-given_before_example =
    handle_connect-given_before env "alice" 3 shared_early own_stream [] 10 (11 ∷ []) refl refl refl
      (ground arith)

abbrev hello : PeerMessage
hello = PeerMessage.text "hello"

send_message_lem_example :
    (app' : App) × (send_message env hello bob_comes
      ≡ ended (all_can_send env page bob_comes.state.peers) app')
    × (app'.page ≡ record page { calls = sends env hello (reached env page bob_comes.state.peers) })
    × (app'.state.messages.list ≡ own_message hello "noon" ∷ [])
    × (app'.state.messages.count ≡ 1)
send_message_lem_example = send_message_lem env hello bob_comes

-- Alice gets the message, Bob does not, and sendMessage throws.
waits_for_bob :
    (reached env page bob_comes.state.peers ≡ ("alice", 3) ∷ [])
    × (all_can_send env page bob_comes.state.peers ≡ false)
unfolding can_send
waits_for_bob = (refl, refl)

handle_data-stringify_example :
    (app' : App) × (handle_data env "alice" (env.json.stringify hello) in_call ≡ returned app')
    × (app'.page ≡ page)
    × (app'.state.messages.list ≡ arrived "alice" hello "noon" ∷ [])
    × (app'.state.messages.count ≡ 1)
handle_data-stringify_example = handle_data-stringify env "alice" hello in_call

abbrev a_call : List ClientEvent
a_call = users_come none users ∷ acts (alice_sends stream_1) ∷ []

abbrev called : App
called = run_events env a_call (record { state = initial_state none "Carol"; page = page })

run_events-handle_close_example :
    IsWellFormed called.state.streams
    × (get (handle_close env "alice" called).state.peers "alice" ≡ none)
    × (get (handle_close env "alice" called).state.streams "alice" ≡ none)
    × (get (handle_close env "alice" called).state.nicknames "alice" ≡ none)
run_events-handle_close_example =
    run_events-handle_close env none "Carol" page a_call "alice" (tt, (tt, tt)) alice_is_plain

abbrev not_open : Error
not_open = record { name = "InvalidStateError"; message = "Still in CONNECTING state" }

abbrev session : Session
session = start in_call

abbrev hung_up : App
hung_up = (hang_up_call env "room" none session).app

hang_up-fire_timeout_example :
    (hung_up.state.peers ≡ [])
    × (hung_up.page.calls ≡ Call.socket_emit (SocketMessage.hang_up env.user_id) ∷ [])
    × ((fire_timeout hung_up.page).calls
        ≡ Call.socket_emit (SocketMessage.hang_up env.user_id) ∷ peer_destroy 3 ∷ [])
    × (hang_up_call env "room" (some not_open) session ≡ session)
hang_up-fire_timeout_example = hang_up-fire_timeout env "room" session not_open refl

-- A track comes to one of Alice's two streams, its other tracks go, and then she leaves.
abbrev track_payload : Track → StreamTrackPayload
track_payload t = record { stream = stream_1; track = t; user_id = "alice" }

abbrev added : Action
added = Action.stream_track_add (track_payload 31)

abbrev removed : Action
removed = Action.stream_track_remove (track_payload 31)

abbrev alice_acts : List Action
alice_acts = added ∷ removed ∷ Action.nickname_remove "alice" ∷ []

dispatches-view_example :
    view (for_each (dispatch env) alice_acts in_call)
    ≡ for_each (act_view "carol") alice_acts (view in_call)
dispatches-view_example = dispatches-view env alice_acts in_call (tt, (tt, (alice_is_plain, tt)))

-- The stream has the track after the first of these, and not after the second; she has two streams
-- up to then, and none once she has left.
abbrev seen_after : List Action → View
seen_after actions = for_each (act_view "carol") actions (view in_call)

alice_leaves :
    (any (λ t. t == 31) ((seen_after (added ∷ [])).tracks stream_1.ref) ≡ true)
    × (any (λ t. t == 31) ((seen_after (added ∷ removed ∷ [])).tracks stream_1.ref) ≡ false)
    × ((seen_after (added ∷ removed ∷ [])).shown "alice" ≡ stream_1 ∷ stream_2 ∷ [])
    × ((seen_after alice_acts).shown "alice" ≡ [])
unfolding get get_stream_with_user_id
alice_leaves = (refl, refl, refl, refl)
