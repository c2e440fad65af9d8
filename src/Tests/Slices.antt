-- ===== src/Tests/Slices.antt =====
-- Runs and instances of the theorems on the other slices.
use model_lib.Prelude.{
  String, ◌≡◌, refl, true, false, not, ◌&&◌, none, some, List, [], ◌∷◌, ◌++◌, if◌then◌else◌, ◌=?◌,
}
use model_lib.Prelude.Dict.{Dict, get}
use model_lib.Actions.{
  Action, Async, pending, resolved, Message, MinimizeTogglePayload, camera, me, info, Error,
}
use model_lib.Reducers.Media.{default_state, media, join_enabled, is_hung_up, in_call, hung_up}
use model_lib.Reducers.Media.Dialling.{
  run_media, last_set, dial_state_set, connected_set, loading_set, join_enabled-run_media,
}
use model_lib.Reducers.Messages.{MessagesState}
use model_lib.Reducers.Messages.Counting.{Grows, run_messages, run_messages-Grows}
use model_lib.Reducers.WindowStates.{WindowStates, minimized, get_stream_key, minimize_toggle}
use model_lib.Reducers.WindowStates.Toggling.{is_minimized, minimize_toggle_twice}
use model_lib.Reducers.Nicknames.{Nicknames}
use model_lib.Reducers.Nicknames.Users.{Has, UniqueKeys}
use model_lib.Reducers.Notifications.{
  notifications, handle_notifications, make_notification, dismiss,
}
use model_lib.Reducers.Notifications.Entries.{
  get-dismiss, new_entry, handle_notifications-make_notification, AllFiled, notifications-AllFiled,
}
use model_lib.Reducers.Peers.{PeersState, peers, local_stream, set_local_stream}
use model_lib.Reducers.Peers.Sending.{is_peer, switched, shared, sending-peers_shared}
use model_lib.Reducers.Peers.Tracks.{sending, tracks_of}
use model_lib.Tests.Data.{lodash, page, stream_1}

-- Connecting, then dialling.
abbrev joined_call : List Action
joined_call =
    Action.socket_connected
    ∷ Action.dial pending
    ∷ Action.dial (resolved tt)
    ∷ Action.notify_clear
    ∷ []

joined_call_run : (run_media default_state joined_call).dial_state ≡ in_call
unfolding media
joined_call_run = refl

join_enabled-run_media_example : join_enabled (run_media default_state joined_call) ≡ (
    is_hung_up (last_set dial_state_set hung_up joined_call)
    && last_set connected_set false joined_call
    && not (last_set loading_set false joined_call))
join_enabled-run_media_example = join_enabled-run_media joined_call

abbrev hello : Message
hello = record {
  user_id = "alice";
  message = "hello";
  timestamp = "noon";
  image = none;
  system = false;
}

abbrev empty_chat : MessagesState
empty_chat = record { list = []; count = 0 }

abbrev chat : List (Action × String)
chat = (Action.message_add hello, "noon") ∷ (Action.notify_clear, "one") ∷ []

run_messages-Grows_example : Grows empty_chat (run_messages empty_chat chat)
run_messages-Grows_example = run_messages-Grows empty_chat chat

abbrev toggle_alice : MinimizeTogglePayload
toggle_alice = record { user_id = "alice"; stream_id = some "s1" }

abbrev alice_minimized : WindowStates
alice_minimized = ("alice_s1", minimized) ∷ []

minimize_toggle_twice_example :
    is_minimized
      (minimize_toggle (minimize_toggle alice_minimized toggle_alice).new toggle_alice).new
      "alice_s1"
    ≡ is_minimized alice_minimized "alice_s1"
minimize_toggle_twice_example = minimize_toggle_twice alice_minimized toggle_alice "alice_s1"

alice_is_minimized : is_minimized alice_minimized (get_stream_key "alice" (some "s1")) ≡ true
unfolding get_stream_key get
alice_is_minimized = refl

same_key : get_stream_key "bob" none ≡ get_stream_key "bob" (some "undefined")
unfolding get_stream_key
same_key = refl

abbrev names : Nicknames
names = (me, some "Me") ∷ ("bob", some "Bob") ∷ []

me_there : Has names me
unfolding get
me_there = cc

abbrev from_server : Dict String
from_server = ("own", "Ann") ∷ ("carol", "Carol") ∷ []

from_server_keys : UniqueKeys from_server
unfolding get
from_server_keys = (refl, (refl, tt))

not_listed : get from_server me ≡ none
unfolding get
not_listed = refl

get-dismiss_example : get (dismiss [] "n") "n" ≡ (if "n" =? "n" then none else get [] "n")
get-dismiss_example = get-dismiss [] "n" "n"

handle_notifications-make_notification_example :
    handle_notifications [] (Action.notify (make_notification lodash info "hi" page).0)
    ≡ [] ++ new_entry lodash info "hi" page ∷ []
handle_notifications-make_notification_example =
    handle_notifications-make_notification lodash [] info "hi" page tt

abbrev dial_error : Error
dial_error = record { name = "Error"; message = "Dial timed out!" }

notifications-AllFiled_example :
    AllFiled lodash
      (notifications lodash [] (Action.dial (Async.rejected dial_error)) page).1.unique_ids
      (notifications lodash [] (Action.dial (Async.rejected dial_error)) page).0
notifications-AllFiled_example =
    notifications-AllFiled lodash [] (Action.dial (Async.rejected dial_error)) page tt tt

abbrev two_peers : PeersState
two_peers = ("alice", 5) ∷ ("bob", 6) ∷ []

sending-peers_shared_example :
    (sending (peers lodash two_peers (shared camera stream_1) page).1 6 10 ≡ (
      if is_peer two_peers 6
      then switched
          (tracks_of page (local_stream page.local_streams camera))
          (10 ∷ 11 ∷ [])
          10
          (sending page 6 10)
      else sending page 6 10))
    × ((peers lodash two_peers (shared camera stream_1) page).1.local_streams
        ≡ set_local_stream page.local_streams camera stream_1)
sending-peers_shared_example = sending-peers_shared lodash two_peers camera stream_1 page 6 10
