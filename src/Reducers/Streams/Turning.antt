-- ===== src/Reducers/Streams/Turning.antt =====
-- What the streams' reducer leaves as it is on the page (src/client/reducers/streams.ts).
use model_lib.Prelude.{
  String, Option, List, [], ◌∷◌, Bool-cases, Option-cases, inl, inr, refl, arith,
}
use model_lib.Prelude.Dict.{get}
use model_lib.Lodash.{Lodash}
use model_lib.Actions.{
  Action, resolved, Track, MediaStream, StreamType, AddStreamPayload, StreamTrackPayload,
}
use model_lib.Page.{
  Page, get_tracks, remove_track, same_stream, safe_create_object_url, stop_tracks,
}
use model_lib.Page.Turning.{
  Turns, Turns-refl, Turns-trans, same_Turns, for_each-Turns, revoke_url-Turns, stop_tracks-Turns,
}
use model_lib.Reducers.Streams.{
  StreamsState, UserStreams, StreamWithUrl, StreamWithUserId, get_stream_with_user_id,
  user_streams_or_new, has_stream, add_resolved, add_stream, release_if_found, release,
  other_streams, silence, silence_stream, stop_all_tracks, stop_entry, remove_found,
  remove_resolved, remove_stream, remove_if_empty, remove_stream_track, add_stream_track,
  remove_user_streams, streams,
}

add_resolved-Turns :
    (state : StreamsState) (target : StreamWithUserId) (type : Option StreamType) (page : Page)
    → Turns page (add_resolved state target type page).1
unfolding add_resolved safe_create_object_url
add_resolved-Turns state target type page =
    elim (Bool-cases (
      has_stream (user_streams_or_new target.user_id (get state target.user_id)).streams
        target.stream)) [
          | inl there ↦ rw there (Turns-refl page)
          | inr fresh ↦ rw fresh (same_Turns page _ refl refl)
        ]

add_stream-Turns :
    (state : StreamsState) (payload : AddStreamPayload) (page : Page)
    → Turns page (add_stream state payload page).1
unfolding add_stream
add_stream-Turns state payload page = add_resolved-Turns state _ payload.type page

release-Turns : (s : StreamWithUrl) (page : Page) → Turns page (release s page)
unfolding release
release-Turns s page =
    Turns-trans page (stop_tracks s.stream page) _ (stop_tracks-Turns s.stream page)
      (revoke_url-Turns s.url (stop_tracks s.stream page))

release_if_found-Turns :
    (stream : MediaStream) (s : StreamWithUrl) (page : Page)
    → Turns page (release_if_found stream s page)
unfolding release_if_found
release_if_found-Turns stream s page = elim (Bool-cases (same_stream s.stream stream)) [
  | inl found ↦ rw found (
      Turns-trans page (stop_tracks stream page) _ (stop_tracks-Turns stream page)
        (revoke_url-Turns s.url (stop_tracks stream page)))
  | inr other ↦ rw other (Turns-refl page)
]

stop_all_tracks-Turns : (u : UserStreams) (page : Page) → Turns page (stop_all_tracks u page)
unfolding stop_all_tracks silence_stream silence
stop_all_tracks-Turns u page =
    for_each-Turns silence_stream
      (λ s p.
        for_each-Turns silence (λ (t : Track) q. same_Turns q _ refl refl) (get_tracks p s.stream)
          p)
      u.streams page

module _ (lib : Lodash) where
  remove_found-Turns :
      (state : StreamsState) (target : StreamWithUserId) (u : UserStreams)
      (kept : List StreamWithUrl) (page : Page)
      → Turns page (remove_found lib state target u kept page).1
  unfolding remove_found
  remove_found-Turns state target u [] page = for_each-Turns release release-Turns u.streams page
  remove_found-Turns state target u (s ∷ kept) page = Turns-refl page

  remove_resolved-Turns :
      (state : StreamsState) (target : StreamWithUserId) (page : Page)
      → Turns page (remove_resolved lib state target page).1
  unfolding remove_resolved
  remove_resolved-Turns state target page = elim (Option-cases (get state target.user_id)) [
    | inl missing ↦ rw (missing, remove_resolved) (Turns-refl page)
    | inr (u, e) ↦
        rw (e, remove_resolved)
          (Turns-trans page _ _
            (for_each-Turns (release_if_found target.stream) (release_if_found-Turns target.stream)
              u.streams page)
            (remove_found-Turns state target u (other_streams target.stream u.streams) _))
  ]

  remove_if_empty-Turns :
      (state : StreamsState) (target : StreamWithUserId) (left : List Track) (page : Page)
      → Turns page (remove_if_empty lib state target left page).1
  unfolding remove_if_empty remove_stream
  remove_if_empty-Turns state target [] page = remove_resolved-Turns state _ page
  remove_if_empty-Turns state target (t ∷ left) page = Turns-refl page

  remove_stream_track-Turns :
      (state : StreamsState) (payload : StreamTrackPayload) (page : Page)
      → Turns page (remove_stream_track lib state payload page).1
  unfolding remove_stream_track
  remove_stream_track-Turns state payload page =
      let target =
        get_stream_with_user_id (record { stream = payload.stream; user_id = payload.user_id }) in
      let after = remove_track target.stream payload.track page in
      elim (Option-cases (get state target.user_id)) [
        | inl missing ↦ rw (missing, remove_stream_track) (Turns-refl page)
        | inr (u, e) ↦ elim (Bool-cases (has_stream u.streams target.stream)) [
          | inl there ↦
              rw (e, remove_stream_track, there)
                (Turns-trans page after _ (same_Turns page _ refl refl)
                  (remove_if_empty-Turns state target (get_tracks after target.stream) after))
          | inr absent ↦ rw (e, remove_stream_track, absent) (Turns-refl page)
        ]
      ]

  add_stream_track-Turns :
      (state : StreamsState) (payload : StreamTrackPayload) (page : Page)
      → Turns page (add_stream_track lib state payload page).1
  unfolding add_stream_track
  add_stream_track-Turns state payload page =
      grind (arith, add_stream-Turns, Turns-trans, same_Turns)

  remove_user_streams-Turns :
      (state : StreamsState) (user_id : String) (page : Page)
      → Turns page (remove_user_streams lib state user_id page).1
  unfolding remove_user_streams
  remove_user_streams-Turns state user_id page = elim (Option-cases (get state user_id)) [
    | inl missing ↦ rw (missing, remove_user_streams) (Turns-refl page)
    | inr (u, e) ↦ rw (e, remove_user_streams) (stop_all_tracks-Turns u page)
  ]

  pub streams-Turns :
      (state : StreamsState) (action : Action) (page : Page)
      → Turns page (streams lib state action page).1
  unfolding streams remove_stream
  streams-Turns state (Action.stream_add payload) page = add_stream-Turns state payload page
  streams-Turns state (Action.stream_remove payload) page = remove_resolved-Turns state _ page
  streams-Turns state (Action.stream_track_add payload) page =
      add_stream_track-Turns state payload page
  streams-Turns state (Action.stream_track_remove payload) page =
      remove_stream_track-Turns state payload page
  streams-Turns state (Action.nickname_remove user_id) page =
      remove_user_streams-Turns state user_id page
  streams-Turns state Action.hang_up page =
      for_each-Turns stop_entry (λ e p. stop_all_tracks-Turns e.1 p) (lib.entries UserStreams state)
        page
  streams-Turns state (Action.media_stream (resolved payload)) page =
      add_stream-Turns state payload page
  streams-Turns state _ page = Turns-refl page
