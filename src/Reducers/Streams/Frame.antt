-- ===== src/Reducers/Streams/Frame.antt =====
-- Which entries of the streams state an action leaves alone (src/client/reducers/streams.ts).
use model_lib.Prelude.{
  String, ◌≡◌, ◌≢◌, refl, sym, ap, ◌∙◌, Option, some, List, [], ◌∷◌, arith, Option-cases, inl, inr,
}
use model_lib.Prelude.Dict.{get-put_ne, get-without_ne, get}
use model_lib.Actions.{
  Action, StreamType, AddStreamPayload, RemoveStreamPayload, StreamTrackPayload, Track, resolved,
}
use model_lib.Page.{Page}
use model_lib.Lodash.{Lodash}
use model_lib.Reducers.Streams.{
  StreamWithUrl, UserStreams, StreamsState, StreamWithUserId, add_resolved, add_stream,
  remove_resolved, remove_stream, remove_found, remove_stream_track, add_stream_track,
  remove_user_streams, streams, remove_if_empty, get_stream_with_user_id, sfu_user, owner,
}
use model_lib.Reducers.Streams.SfuIds.{get_stream_with_user_id_idem}
use model_lib.Reducers.Streams.Invariant.{HasPlainIds}

pub stream-get_stream_with_user_id :
    (payload : StreamWithUserId) → (get_stream_with_user_id payload).stream ≡ payload.stream
unfolding get_stream_with_user_id sfu_user
stream-get_stream_with_user_id payload = ground arith

-- The action is not about the entry of user `j`.
abbrev pub Spares : Action → String → Type 0
Spares (Action.stream_add p) j = owner p.user_id p.stream ≢ j
Spares (Action.stream_remove p) j = owner p.user_id p.stream ≢ j
Spares (Action.stream_track_add p) j = owner p.user_id p.stream ≢ j
Spares (Action.stream_track_remove p) j = owner p.user_id p.stream ≢ j
Spares (Action.media_stream (resolved p)) j = owner p.user_id p.stream ≢ j
Spares (Action.nickname_remove user_id) j = user_id ≢ j
Spares Action.hang_up j = ⊥
Spares _ j = Unit

add_resolved_ne :
    (state : StreamsState) (target : StreamWithUserId) (type : Option StreamType) (page : Page)
    (j : String)
    → target.user_id ≢ j
    → get (add_resolved state target type page).0 j ≡ get state j
unfolding add_resolved
add_resolved_ne state target type page j h = grind (arith, get-put_ne)

pub add_stream_ne :
    (state : StreamsState) (payload : AddStreamPayload) (page : Page) (j : String)
    → owner payload.user_id payload.stream ≢ j
    → get (add_stream state payload page).0 j ≡ get state j
unfolding add_stream
add_stream_ne state payload page j h = add_resolved_ne state _ _ page j h

module _ (lib : Lodash) where
  remove_found_ne :
      (state : StreamsState) (target : StreamWithUserId) (u : UserStreams)
      (kept : List StreamWithUrl) (page : Page) (j : String)
      → get state target.user_id ≡ some u
      → target.user_id ≢ j
      → get (remove_found lib state target u kept page).0 j ≡ get state j
  unfolding remove_found
  remove_found_ne state target u [] page j e h =
      rw (lib.omit_own UserStreams state target.user_id u e)
        (get-without_ne state target.user_id j h)
  remove_found_ne state target u (s ∷ kept) page j e h = get-put_ne state _ j _ h

  remove_resolved_ne :
      (state : StreamsState) (target : StreamWithUserId) (page : Page) (j : String)
      → target.user_id ≢ j
      → get (remove_resolved lib state target page).0 j ≡ get state j
  unfolding remove_resolved
  remove_resolved_ne state target page j h = elim (Option-cases (get state target.user_id)) [
    | inl missing ↦ rw (missing, remove_resolved) refl
    | inr (u, e) ↦ rw (e, remove_resolved) (remove_found_ne state target u _ _ j e h)
  ]

  pub remove_stream_ne :
      (state : StreamsState) (payload : RemoveStreamPayload) (page : Page) (j : String)
      → owner payload.user_id payload.stream ≢ j
      → get (remove_stream lib state payload page).0 j ≡ get state j
  unfolding remove_stream
  remove_stream_ne state payload page j h = remove_resolved_ne state _ page j h

  remove_if_empty_ne :
      (state : StreamsState) (target : StreamWithUserId) (left : List Track) (page : Page)
      (j : String)
      → get_stream_with_user_id target ≡ target
      → target.user_id ≢ j
      → get (remove_if_empty lib state target left page).0 j ≡ get state j
  unfolding remove_if_empty
  remove_if_empty_ne state target [] page j e h =
      remove_stream_ne state (record { user_id = target.user_id; stream = target.stream }) page j
        (λ q. h (ap (λ (t : StreamWithUserId). t.user_id) (sym e) ∙ q))
  remove_if_empty_ne state target (t ∷ left) page j e h = refl

  remove_stream_track_ne :
      (state : StreamsState) (payload : StreamTrackPayload) (page : Page) (j : String)
      → owner payload.user_id payload.stream ≢ j
      → get (remove_stream_track lib state payload page).0 j ≡ get state j
  unfolding remove_stream_track
  remove_stream_track_ne state payload page j h =
      grind (arith, remove_if_empty_ne, get_stream_with_user_id_idem)

  add_stream_track_ne :
      (state : StreamsState) (payload : StreamTrackPayload) (page : Page) (j : String)
      → owner payload.user_id payload.stream ≢ j
      → get (add_stream_track lib state payload page).0 j ≡ get state j
  unfolding add_stream_track
  add_stream_track_ne state payload page j h = grind (arith, add_stream_ne)

  -- An action that is not about a user leaves the user's entry in the streams state as it is,
  -- with the SFU's ids taken into account when it is decided whom an action is about; the id of
  -- a leaving user must be one that lodash reads as a plain key.
  pub streams_frame :
      (state : StreamsState) (action : Action) (page : Page) (j : String)
      → HasPlainIds action
      → Spares action j
      → get (streams lib state action page).0 j ≡ get state j
  unfolding streams remove_user_streams
  streams_frame state (Action.stream_add p) page j plain h = add_stream_ne state p page j h
  streams_frame state (Action.stream_remove p) page j plain h = remove_stream_ne state p page j h
  streams_frame state (Action.stream_track_add p) page j plain h =
      add_stream_track_ne state p page j h
  streams_frame state (Action.stream_track_remove p) page j plain h =
      remove_stream_track_ne state p page j h
  streams_frame state (Action.nickname_remove user_id) page j plain h =
      rw (lib.omit_plain UserStreams state user_id plain) (get-without_ne state user_id j h)
  streams_frame state Action.hang_up page j plain h = absurd h
  streams_frame state (Action.media_stream (resolved p)) page j plain h =
      add_stream_ne state p page j h
  streams_frame state _ page j plain h = refl
