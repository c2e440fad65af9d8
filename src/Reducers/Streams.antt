-- ===== src/Reducers/Streams.antt =====
-- src/client/reducers/streams.ts: the media streams of each user. The reducer also stops tracks
-- and makes object URLs, so each function takes the page and returns it beside the new state.
pub mod Refinement
pub mod Seen
pub mod TrackLists
pub mod Turning
pub mod Distinctness
pub mod Invariant
pub mod SfuIds
pub mod Frame
pub mod Entries
pub mod Silence
use text.Mathlib.Text.{starts_with}
use model_lib.Prelude.{
  String, Bool, true, false, not, Option, none, some, List, [], ◌∷◌, ◌++◌, if◌then◌else◌, any,
  filter, for_each,
}
use model_lib.Prelude.Dict.{Dict, get, put}
use model_lib.Prelude.Text.{split}
use model_lib.Actions
use model_lib.Actions.{
  Action, MediaStream, StreamType, AddStreamPayload, RemoveStreamPayload, StreamTrackPayload, Track,
  resolved,
}
use model_lib.Page.{
  Page, same_stream, has_track, get_tracks, add_track, remove_track, stop, clear_handlers,
  stop_tracks, revoke_url, safe_create_object_url,
}
use model_lib.Lodash.{Lodash}

pub record StreamWithUrl : Type 0 where
  pub stream : MediaStream
  pub type : Option StreamType
  pub url : Option String

pub record UserStreams : Type 0 where
  pub user_id : String
  pub streams : List StreamWithUrl

abbrev pub StreamsState : Type 0
StreamsState = Dict UserStreams

pub record StreamWithUserId : Type 0 where
  pub stream : MediaStream
  pub user_id : String

-- The test of `getStreamWithUserId`, given that the id begins with "sfu_" and its parts.
sfu_user : StreamWithUserId → Bool → List String → StreamWithUserId
sfu_user payload true (_ ∷ user_id ∷ _ ∷ []) = record { stream = payload.stream; user_id = user_id }
sfu_user payload _ _ = payload

unfoldable pub get_stream_with_user_id : StreamWithUserId → StreamWithUserId
unfolding sfu_user
get_stream_with_user_id payload =
    sfu_user payload (starts_with payload.stream.id "sfu_") (split payload.stream.id)

-- The user whose entry a stream from this sender belongs to.
abbrev pub owner : String → MediaStream → String
owner user_id stream =
    (get_stream_with_user_id (record { stream = stream; user_id = user_id })).user_id

-- state[userId] || { userId, streams: [] }
abbrev pub user_streams_or_new : String → Option UserStreams → UserStreams
user_streams_or_new user_id none = record { user_id = user_id; streams = [] }
user_streams_or_new user_id (some u) = u

-- streams.map(s => s.stream).indexOf(stream) >= 0
abbrev pub has_stream : List StreamWithUrl → MediaStream → Bool
has_stream streams stream = any (λ s. same_stream s.stream stream) streams

-- addStream, after `getStreamWithUserId`
unfoldable pub add_resolved :
    StreamsState → StreamWithUserId → Option StreamType → Page → StreamsState × Page
add_resolved state target type page =
    let user_streams = user_streams_or_new target.user_id (get state target.user_id) in
    if has_stream user_streams.streams target.stream
    then (state, page)
    else let (url, page') = safe_create_object_url target.stream page in
      let added : StreamWithUrl = record { stream = target.stream; type = type; url = url } in
      (
        put state target.user_id
            (record { user_id = target.user_id; streams = user_streams.streams ++ added ∷ [] }),
        page',
      )

unfoldable pub add_stream : StreamsState → AddStreamPayload → Page → StreamsState × Page
add_stream state payload page =
    add_resolved state
      (get_stream_with_user_id (record { stream = payload.stream; user_id = payload.user_id }))
      payload.type page

-- The effects of the filter's callback on one element.
unfoldable pub release_if_found : MediaStream → StreamWithUrl → Page → Page
release_if_found stream s page =
    if same_stream s.stream stream then revoke_url s.url (stop_tracks stream page) else page

-- The effects of the last loop of `removeStream` on one element.
unfoldable pub release : StreamWithUrl → Page → Page
release s page = revoke_url s.url (stop_tracks s.stream page)

abbrev pub other_streams : MediaStream → List StreamWithUrl → List StreamWithUrl
other_streams stream streams = filter (λ s. not (same_stream s.stream stream)) streams

-- stopAllTracks, on one track, on one stream and on all streams of a user
unfoldable pub silence : Track → Page → Page
silence track page = clear_handlers track (stop track page)

unfoldable pub silence_stream : StreamWithUrl → Page → Page
silence_stream s page = for_each silence (get_tracks page s.stream) page

unfoldable pub stop_all_tracks : UserStreams → Page → Page
stop_all_tracks user_streams page = for_each silence_stream user_streams.streams page

abbrev pub stop_entry : String × UserStreams → Page → Page
stop_entry e page = stop_all_tracks e.1 page

module _ (lib : Lodash) where
  -- removeStream, on the streams that the user has and those that the filter keeps
  remove_found :
      StreamsState
      → StreamWithUserId
      → UserStreams
      → List StreamWithUrl
      → Page
      → StreamsState × Page
  remove_found state target user_streams [] page =
      (lib.omit UserStreams state (target.user_id ∷ []), for_each release user_streams.streams page)
  remove_found state target user_streams (s ∷ kept) page =
      (put state target.user_id (record { user_id = target.user_id; streams = s ∷ kept }), page)

  unfoldable pub remove_resolved : StreamsState → StreamWithUserId → Page → StreamsState × Page
  unfolding remove_found
  remove_resolved state target page = elim (get state target.user_id) [
    | none ↦ (state, page)
    | some user_streams ↦
        remove_found state target user_streams (other_streams target.stream user_streams.streams)
          (for_each (release_if_found target.stream) user_streams.streams page)
  ]

  unfoldable pub remove_stream : StreamsState → RemoveStreamPayload → Page → StreamsState × Page
  remove_stream state payload page =
      remove_resolved state
        (get_stream_with_user_id (record { stream = payload.stream; user_id = payload.user_id }))
        page

  -- The tail of `removeStreamTrack`, after the track is gone from the stream.
  remove_if_empty : StreamsState → StreamWithUserId → List Track → Page → StreamsState × Page
  remove_if_empty state target [] page =
      remove_stream state (record { user_id = target.user_id; stream = target.stream }) page
  remove_if_empty state target (_ ∷ _) page = (state, page)

  unfoldable pub remove_stream_track :
      StreamsState → StreamTrackPayload → Page → StreamsState × Page
  unfolding remove_if_empty
  remove_stream_track state payload page =
      let target : StreamWithUserId =
        get_stream_with_user_id (record { stream = payload.stream; user_id = payload.user_id }) in
      elim (get state target.user_id) [
        | none ↦ (state, page)
        | some user_streams ↦
            if not (has_stream user_streams.streams target.stream)
            then (state, page)
            else let page' = remove_track target.stream payload.track page in
              remove_if_empty state target (get_tracks page' target.stream) page'
      ]

  -- `userStreams && userStreams.streams.find(…)`, as a test
  abbrev has_user_stream : Option UserStreams → MediaStream → Bool
  has_user_stream none stream = false
  has_user_stream (some u) stream = has_stream u.streams stream

  unfoldable pub add_stream_track : StreamsState → StreamTrackPayload → Page → StreamsState × Page
  add_stream_track state payload page =
      let target : StreamWithUserId =
        get_stream_with_user_id (record { stream = payload.stream; user_id = payload.user_id }) in
      let page' =
        if has_track page target.stream payload.track
        then page
        else add_track target.stream payload.track page in
      if has_user_stream (get state target.user_id) target.stream
      then (state, page')
      else add_stream state
          (record { user_id = payload.user_id; type = none; stream = payload.stream }) page'

  unfoldable pub remove_user_streams : StreamsState → String → Page → StreamsState × Page
  remove_user_streams state user_id page = (
    lib.omit UserStreams state (user_id ∷ []),
    elim (get state user_id) [ none ↦ page | some u ↦ stop_all_tracks u page ],
  )

  -- the default export
  unfoldable pub streams : StreamsState → Action → Page → StreamsState × Page
  streams state (Action.stream_add payload) page = add_stream state payload page
  streams state (Action.stream_remove payload) page = remove_stream state payload page
  streams state (Action.stream_track_add payload) page = add_stream_track state payload page
  streams state (Action.stream_track_remove payload) page = remove_stream_track state payload page
  streams state (Action.nickname_remove user_id) page = remove_user_streams state user_id page
  streams state Action.hang_up page = ([], for_each stop_entry (lib.entries UserStreams state) page)
  streams state (Action.media_stream (resolved payload)) page = add_stream state payload page
  streams state _ page = (state, page)
