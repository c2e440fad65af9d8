-- ===== src/Tests/Streams.antt =====
-- Runs and instances of the theorems on the streams' reducer.
use model_lib.Prelude.{◌≡◌, refl, sym, ◌∙◌, true, false, none, some, [], ◌∷◌, All, arith, eq_iff}
use model_lib.Prelude.Dict.{get}
use model_lib.Prelude.Text.{split}
use model_lib.Actions.{Action, AddStreamPayload, RemoveStreamPayload}
use model_lib.Page.{Page, revoke_object_url, safe_create_object_url, stop_tracks, revoke_url}
use model_lib.Reducers.Streams.{
  owner, StreamWithUserId, UserStreams, StreamsState, release, release_if_found, streams,
  add_stream, remove_stream, remove_user_streams, get_stream_with_user_id, stop_all_tracks,
  has_stream, silence, silence_stream, add_resolved, remove_resolved,
}
use model_lib.Reducers.Streams.Invariant.{IsWellFormed, empty-IsWellFormed, streams-IsWellFormed}
use model_lib.Reducers.Streams.Frame.{streams_frame}
use model_lib.Reducers.Streams.Entries.{streams_of, remove_stream-add_stream}
use model_lib.Reducers.Streams.Silence.{IsSilentUser, hang_up_silences}
use model_lib.Tests.Data.{lodash, page, stream_1, stream_2, entry, two_streams}

streams_runs : Unit {0}
unfolding streams add_stream remove_stream remove_user_streams get_stream_with_user_id
    stop_all_tracks silence silence_stream add_resolved remove_resolved release release_if_found
    stop_tracks revoke_url safe_create_object_url split get
streams_runs = tt

abbrev alice_1 : AddStreamPayload
alice_1 = record { user_id = "alice"; type = none; stream = stream_1 }

streams-IsWellFormed_example : IsWellFormed (streams lodash [] (Action.stream_add alice_1) page).0
streams-IsWellFormed_example =
    streams-IsWellFormed lodash [] (Action.stream_add alice_1) page tt empty-IsWellFormed

-- A stream of the SFU is filed under the user that its id names.
abbrev from_sfu : StreamWithUserId
from_sfu = record { stream = record { ref = 7; id = "sfu_bob_x" }; user_id = "alice" }

from_sfu_run :
    get_stream_with_user_id from_sfu ≡ record { stream = from_sfu.stream; user_id = "bob" }
unfolding streams_runs
from_sfu_run = refl

alice_owner : owner "alice" stream_1 ≡ "alice"
unfolding streams_runs
alice_owner = refl

streams_frame_example :
    get (streams lodash two_streams (Action.stream_add alice_1) page).0 "bob"
    ≡ get two_streams "bob"
streams_frame_example =
    streams_frame lodash two_streams (Action.stream_add alice_1) page "bob" tt
      (λ e. ground (arith, eq_iff "alice" "bob", sym alice_owner ∙ e))

-- Bob has no stream yet.
abbrev bob_1 : AddStreamPayload
bob_1 = record { user_id = "bob"; type = none; stream = stream_1 }

bob_is_new : has_stream (streams_of two_streams (owner "bob" stream_1)) stream_1 ≡ false
unfolding streams_runs
bob_is_new = refl

abbrev not_alice_1 : RemoveStreamPayload
not_alice_1 = record { user_id = "alice"; stream = stream_1 }

remove_stream-add_stream_example :
    streams_of
      (remove_stream lodash
        (add_stream two_streams bob_1 page).0
        (record { user_id = "bob"; stream = stream_1 })
        page).0
      "bob"
    ≡ streams_of two_streams "bob"
remove_stream-add_stream_example =
    remove_stream-add_stream lodash two_streams bob_1 page page "bob" bob_is_new

hang_up_silences_example :
    ((streams lodash two_streams Action.hang_up page).0 ≡ [])
    × All
        (λ e. IsSilentUser page.tracks (streams lodash two_streams Action.hang_up page).1 e.1)
        two_streams
hang_up_silences_example = hang_up_silences lodash two_streams page

abbrev alice : UserStreams
alice = record { user_id = "alice"; streams = entry stream_1 ∷ entry stream_2 ∷ [] }

alice_there : get two_streams "alice" ≡ some alice
unfolding streams_runs
alice_there = refl

-- Removing a stream stops its tracks and no other, and takes its URL back.
abbrev removed : StreamsState × Page
removed = remove_stream lodash two_streams not_alice_1 page

remove_run :
    (removed.1.ended 10 ≡ true)
    × (removed.1.ended 11 ≡ true)
    × (removed.1.ended 20 ≡ false)
    × (removed.1.calls ≡ revoke_object_url "blob:u" ∷ [])
unfolding streams_runs
remove_run = (refl, refl, refl, refl)
