-- ===== src/Reducers/Streams/TrackLists.antt =====
-- What the streams' reducer does to the tracks that each stream has (src/client/reducers/streams.ts).
use model_lib.Prelude.{
  ℕ, String, ◌≡◌, refl, sym, ap, ◌∙◌, not, Option, List, [], ◌∷◌, ◌++◌, filter, any, for_each_keeps,
  if◌then◌else◌, ◌==◌, arith, Bool-cases, Option-cases, inl, inr,
}
use model_lib.Prelude.Dict.{get}
use model_lib.Lodash.{Lodash}
use model_lib.Actions.{
  Action, resolved, MediaStream, Track, AddStreamPayload, RemoveStreamPayload, StreamTrackPayload,
}
use model_lib.Page.{
  Page, update, same_stream, get_tracks, has_track, add_track, remove_track, stop, stop_tracks,
  revoke_url, safe_create_object_url,
}
use model_lib.Reducers.Streams.{
  owner, StreamsState, UserStreams, StreamWithUrl, StreamWithUserId, user_streams_or_new,
  has_stream, add_resolved, add_stream, release_if_found, release, other_streams, remove_found,
  remove_resolved, remove_stream, remove_if_empty, remove_stream_track, add_stream_track,
  has_user_stream, remove_user_streams, streams, stop_entry,
}
use model_lib.Reducers.Streams.Entries.{streams_of}
use model_lib.Reducers.Streams.Seen.{Shown, shown, has, has-media_of, target_of, target_stream}
use model_lib.Reducers.Streams.Silence.{HasTracks, stop_all_tracks-HasTracks, stop_entry-HasTracks}

-- The tracks of each stream.
abbrev pub Tracks : Type 0
Tracks = ℕ → List Track

-- A stream gets a track, unless it has it.
abbrev pub add_to : MediaStream → Track → Tracks → Tracks
add_to stream track tracks =
    if any (λ t. t == track) (tracks stream.ref)
    then tracks
    else update tracks stream.ref (tracks stream.ref ++ track ∷ [])

-- A stream loses a track.
abbrev pub remove_from : MediaStream → Track → Tracks → Tracks
remove_from stream track tracks =
    update tracks stream.ref (filter (λ t. not (t == track)) (tracks stream.ref))

-- What an action does, by the streams that users have before it.
abbrev pub act_tracks : Action → Shown → Tracks → Tracks
act_tracks (Action.stream_track_add p) f tracks = add_to p.stream p.track tracks
act_tracks (Action.stream_track_remove p) f tracks =
    if has p.stream (f (owner p.user_id p.stream))
    then remove_from p.stream p.track tracks
    else tracks
act_tracks _ f tracks = tracks

module _ (tracks : Tracks) where
  revoke_url-HasTracks :
      (url : Option String) (page : Page)
      → HasTracks tracks page
      → HasTracks tracks (revoke_url url page)
  unfolding revoke_url
  revoke_url-HasTracks url page e = ground arith

  stop_tracks-HasTracks :
      (stream : MediaStream) (page : Page)
      → HasTracks tracks page
      → HasTracks tracks (stop_tracks stream page)
  unfolding stop_tracks
  stop_tracks-HasTracks stream page e =
      for_each_keeps stop (HasTracks tracks) (λ t p e. e) (get_tracks page stream) page e

  release-HasTracks :
      (s : StreamWithUrl) (page : Page) → HasTracks tracks page → HasTracks tracks (release s page)
  unfolding release
  release-HasTracks s page e = revoke_url-HasTracks s.url _ (stop_tracks-HasTracks s.stream page e)

  release_if_found-HasTracks :
      (stream : MediaStream) (s : StreamWithUrl) (page : Page)
      → HasTracks tracks page
      → HasTracks tracks (release_if_found stream s page)
  unfolding release_if_found
  release_if_found-HasTracks stream s page e = elim (Bool-cases (same_stream s.stream stream)) [
    | inl found ↦ rw found (revoke_url-HasTracks s.url _ (stop_tracks-HasTracks stream page e))
    | inr other ↦ rw other e
  ]

  add_stream-HasTracks :
      (state : StreamsState) (p : AddStreamPayload) (page : Page)
      → HasTracks tracks page
      → HasTracks tracks (add_stream state p page).1
  unfolding add_stream add_resolved safe_create_object_url
  add_stream-HasTracks state p page e = ground arith

  module _ (lib : Lodash) where
    remove_found-HasTracks :
        (state : StreamsState) (target : StreamWithUserId) (u : UserStreams)
        (kept : List StreamWithUrl) (page : Page)
        → HasTracks tracks page
        → HasTracks tracks (remove_found lib state target u kept page).1
    unfolding remove_found
    remove_found-HasTracks state target u [] page e =
        for_each_keeps release (HasTracks tracks) release-HasTracks u.streams page e
    remove_found-HasTracks state target u (s ∷ kept) page e = e

    remove_resolved-HasTracks :
        (state : StreamsState) (target : StreamWithUserId) (page : Page)
        → HasTracks tracks page
        → HasTracks tracks (remove_resolved lib state target page).1
    unfolding remove_resolved
    remove_resolved-HasTracks state target page e = elim (Option-cases (get state target.user_id)) [
      | inl missing ↦ rw (missing, remove_resolved) e
      | inr (u, found) ↦
          rw (found, remove_resolved)
            (remove_found-HasTracks state target u (other_streams target.stream u.streams) _ (
              for_each_keeps (release_if_found target.stream) (HasTracks tracks)
                (release_if_found-HasTracks target.stream) u.streams page e))
    ]

    remove_stream-HasTracks :
        (state : StreamsState) (p : RemoveStreamPayload) (page : Page)
        → HasTracks tracks page
        → HasTracks tracks (remove_stream lib state p page).1
    unfolding remove_stream
    remove_stream-HasTracks state p page e = remove_resolved-HasTracks state _ page e

    remove_if_empty-HasTracks :
        (state : StreamsState) (target : StreamWithUserId) (left : List Track) (page : Page)
        → HasTracks tracks page
        → HasTracks tracks (remove_if_empty lib state target left page).1
    unfolding remove_if_empty
    remove_if_empty-HasTracks state target [] page e = remove_stream-HasTracks state _ page e
    remove_if_empty-HasTracks state target (t ∷ left) page e = e

    remove_user_streams-HasTracks :
        (state : StreamsState) (user_id : String) (page : Page)
        → HasTracks tracks page
        → HasTracks tracks (remove_user_streams lib state user_id page).1
    unfolding remove_user_streams
    remove_user_streams-HasTracks state user_id page e = elim (Option-cases (get state user_id)) [
      | inl missing ↦ rw (missing, remove_user_streams) e
      | inr (u, found) ↦ rw (found, remove_user_streams) (stop_all_tracks-HasTracks tracks u page e)
    ]

add_track-tracks :
    (stream : MediaStream) (track : Track) (page : Page)
    → (if has_track page stream track then page else add_track stream track page).tracks
      ≡ add_to stream track page.tracks
add_track-tracks stream track page = ground arith

module _ (lib : Lodash) where
  add_stream_track-tracks :
      (state : StreamsState) (p : StreamTrackPayload) (page : Page)
      → (add_stream_track lib state p page).1.tracks ≡ add_to p.stream p.track page.tracks
  unfolding add_stream_track
  add_stream_track-tracks state p page =
      let target = target_of p in
      let page' =
        if has_track page target.stream p.track
        then page
        else add_track target.stream p.track page in
      let added : page'.tracks ≡ add_to p.stream p.track page.tracks =
        add_track-tracks target.stream p.track page
        ∙ ap (λ stream. add_to stream p.track page.tracks) (target_stream p) in
      elim (Bool-cases (has_user_stream lib (get state target.user_id) target.stream)) [
        | inl there ↦ rw (there, add_stream_track) added
        | inr absent ↦
            rw (absent, add_stream_track)
              (add_stream-HasTracks page'.tracks state _ page' refl ∙ added)
      ]

  -- The reducer tries the payload's stream for that of the target, which is the same.
  remove_stream_track-tracks :
      (state : StreamsState) (p : StreamTrackPayload) (page : Page)
      → (remove_stream_track lib state p page).1.tracks
        ≡ act_tracks (Action.stream_track_remove p) (shown state) page.tracks
  unfolding remove_stream_track
  remove_stream_track-tracks state p page =
      let target = target_of p in
      let same = target_stream p in
      let after = remove_track target.stream p.track page in
      let has_target = λ (o : Option UserStreams).
        has_stream (user_streams_or_new target.user_id o).streams target.stream in
      let shows : has p.stream (shown state target.user_id)
          ≡ has_target (get state target.user_id) =
        has-media_of p.stream (streams_of state target.user_id)
        ∙ ap (has_stream (streams_of state target.user_id)) (sym same) in
      elim (Option-cases (get state target.user_id)) [
        | inl missing ↦ rw (missing, remove_stream_track, shows ∙ ap has_target missing) refl
        | inr (u, e) ↦ elim (Bool-cases (has_stream u.streams target.stream)) [
          | inl there ↦
              rw (e, remove_stream_track, there, shows ∙ ap has_target e ∙ there)
                (remove_if_empty-HasTracks after.tracks lib state target
                    (get_tracks after target.stream) after refl
                  ∙ ap (λ stream. remove_from stream p.track page.tracks) same)
          | inr absent ↦ rw (e, remove_stream_track, absent, shows ∙ ap has_target e ∙ absent) refl
        ]
      ]

  -- The reducer adds a track to the stream that has got it, and takes one from a stream that has
  -- lost it if the stream is its owner's. It leaves all other tracks to their streams.
  pub streams-tracks :
      (state : StreamsState) (action : Action) (page : Page)
      → (streams lib state action page).1.tracks ≡ act_tracks action (shown state) page.tracks
  unfolding streams
  streams-tracks state (Action.stream_add p) page =
      add_stream-HasTracks page.tracks state p page refl
  streams-tracks state (Action.stream_remove p) page =
      remove_stream-HasTracks page.tracks lib state p page refl
  streams-tracks state (Action.stream_track_add p) page = add_stream_track-tracks state p page
  streams-tracks state (Action.stream_track_remove p) page = remove_stream_track-tracks state p page
  streams-tracks state (Action.nickname_remove user_id) page =
      remove_user_streams-HasTracks page.tracks lib state user_id page refl
  streams-tracks state Action.hang_up page =
      for_each_keeps stop_entry (HasTracks page.tracks) (stop_entry-HasTracks page.tracks)
        (lib.entries UserStreams state) page refl
  streams-tracks state (Action.media_stream (resolved p)) page =
      add_stream-HasTracks page.tracks state p page refl
  streams-tracks state _ page = refl
