-- ===== src/Reducers/Streams/Refinement.antt =====
-- The streams' reducer on what is seen of its state: which media streams each user has, in their order
-- (src/client/reducers/streams.ts).
use model_lib.Prelude.{
  String, ◌≡◌, refl, sym, ap, ◌∙◌, subst, true, false, not, Option, none, some, List, [], ◌∷◌,
  filter, if◌then◌else◌, ◌==◌, arith, Bool-cases, Option-cases, inl, inr,
}
use model_lib.Prelude.Dict.{get, get-without}
use model_lib.Lodash.{Lodash, IsPlainKey}
use model_lib.Actions.{
  Action, resolved, MediaStream, Track, AddStreamPayload, RemoveStreamPayload, StreamTrackPayload,
}
use model_lib.Page.{Page, get_tracks, remove_track}
use model_lib.Reducers.Streams.{
  owner, UserStreams, StreamsState, StreamWithUserId, has_stream, user_streams_or_new, add_stream,
  remove_stream, add_stream_track, remove_stream_track, remove_if_empty, remove_user_streams,
  streams, has_user_stream,
}
use model_lib.Reducers.Streams.Entries.{
  streams_of, appended, streams_of-add_stream, add_stream_present, streams_of-remove_stream,
}
use model_lib.Reducers.Streams.Frame.{add_stream_ne, remove_stream_ne}
use model_lib.Reducers.Streams.SfuIds.{get_stream_with_user_id_idem}
use model_lib.Reducers.Streams.Invariant.{HasPlainIds}
use model_lib.Reducers.Streams.Seen.{
  shown, add_shown, remove_shown, clear_shown, act_shown, is_bare, media_of, has-media_of,
  filter-media_of, media_of-append, at_key, shown-get, add_shown-same, remove_shown-same,
  either_way, target_of, target_stream,
}

add_stream-shown :
    (state : StreamsState) (payload : AddStreamPayload) (page : Page) (j : String)
    → shown (add_stream state payload page).0 j
      ≡ add_shown (owner payload.user_id payload.stream) payload.stream (shown state) j
add_stream-shown state payload page j =
    let k = owner payload.user_id payload.stream in
    let after = (add_stream state payload page).0 in
    at_key k j (λ j. shown after j ≡ add_shown k payload.stream (shown state) j)
      (λ own. elim (Bool-cases (has_stream (streams_of state k) payload.stream)) [
        | inl there ↦
            rw (own, has-media_of payload.stream (streams_of state k), there)
              (ap (λ (r : StreamsState × Page). shown r.0 k)
                (add_stream_present state payload page there))
        | inr absent ↦
            rw (own, has-media_of payload.stream (streams_of state k), absent)
              (ap media_of (streams_of-add_stream state payload page absent)
                ∙ media_of-append (streams_of state k) (appended page payload.stream payload.type))
      ])
      (λ ne e. rw e (shown-get state after j (add_stream_ne state payload page j ne)))

module _ (lib : Lodash) where
  has_user_stream_lem :
      (k : String) (o : Option UserStreams) (stream : MediaStream)
      → has_user_stream lib o stream ≡ has_stream (user_streams_or_new k o).streams stream
  has_user_stream_lem k none stream = refl
  has_user_stream_lem k (some u) stream = refl

  remove_stream-shown :
      (state : StreamsState) (payload : RemoveStreamPayload) (page : Page) (j : String)
      → shown (remove_stream lib state payload page).0 j
        ≡ remove_shown (owner payload.user_id payload.stream) payload.stream (shown state) j
  remove_stream-shown state payload page j =
      let k = owner payload.user_id payload.stream in
      let after = (remove_stream lib state payload page).0 in
      at_key k j (λ j. shown after j ≡ remove_shown k payload.stream (shown state) j)
        (λ own. rw own (
          ap media_of (streams_of-remove_stream lib state payload page)
          ∙ filter-media_of payload.stream (streams_of state k)))
        (λ ne e. rw e (shown-get state after j (remove_stream_ne lib state payload page j ne)))

  add_stream_track-shown :
      (state : StreamsState) (payload : StreamTrackPayload) (page : Page) (j : String)
      → shown (add_stream_track lib state payload page).0 j
        ≡ add_shown (owner payload.user_id payload.stream) payload.stream (shown state) j
  unfolding add_stream_track
  add_stream_track-shown state payload page j =
      let target = target_of payload in
      let found = has_user_stream_lem target.user_id (get state target.user_id) target.stream in
      elim (Bool-cases (has_user_stream lib (get state target.user_id) target.stream)) [
        | inl there ↦
            rw (there, add_stream_track)
              (add_shown-same state target.user_id payload.stream j (
                subst (λ st. has_stream (streams_of state target.user_id) st ≡ true)
                  (target_stream payload) (sym found ∙ there)))
        | inr absent ↦
            rw (absent, add_stream_track)
              (add_stream-shown state
                (record { user_id = payload.user_id; type = none; stream = payload.stream }) _ j)
      ]

  remove_if_empty-shown :
      (state : StreamsState) (p : StreamTrackPayload) (left : List Track) (page : Page) (j : String)
      → let target = target_of p in
        shown (remove_if_empty lib state target left page).0 j
        ≡ (if is_bare left
              then remove_shown target.user_id target.stream (shown state)
              else shown state)
            j
  unfolding remove_if_empty
  remove_if_empty-shown state p [] page j =
      let target = target_of p in
      remove_stream-shown state (record { user_id = target.user_id; stream = target.stream }) page j
      ∙ ap (λ (t : StreamWithUserId). remove_shown t.user_id target.stream (shown state) j)
          (get_stream_with_user_id_idem _)
  remove_if_empty-shown state p (t ∷ left) page j = refl

  remove_stream_track-shown :
      (state : StreamsState) (payload : StreamTrackPayload) (page : Page) (j : String)
      → shown (remove_stream_track lib state payload page).0 j
        ≡ act_shown (Action.stream_track_remove payload) page.tracks (shown state) j
  unfolding remove_stream_track remove_if_empty
  remove_stream_track-shown state payload page j =
      let target = target_of payload in
      let same = target_stream payload in
      let after = remove_track target.stream payload.track page in
      let left = filter (λ t. not (t == payload.track)) (page.tracks payload.stream.ref) in
      let has_target = λ (o : Option UserStreams).
        has_stream (user_streams_or_new target.user_id o).streams target.stream in
      let remaining : get_tracks after target.stream
          ≡ filter (λ t. not (t == payload.track)) (page.tracks target.stream.ref) =
        ground arith in
      let unchanged : has_stream (streams_of state target.user_id) target.stream ≡ false
          → shown state j
            ≡ act_shown (Action.stream_track_remove payload) page.tracks (shown state) j =
        λ absent. either_way (is_bare left) (shown state) _ j (
          remove_shown-same state target.user_id payload.stream j
            (subst (λ st. has_stream (streams_of state target.user_id) st ≡ false) same absent)) in
      elim (Option-cases (get state target.user_id)) [
        | inl missing ↦ rw (missing, remove_stream_track) (unchanged (ap has_target missing))
        | inr (u, e) ↦ elim (Bool-cases (has_stream u.streams target.stream)) [
          | inl there ↦
              rw (e, remove_stream_track, there)
                (remove_if_empty-shown state payload (get_tracks after target.stream) after j
                  ∙ ap
                      (λ l.
                        (if is_bare l
                            then remove_shown target.user_id target.stream (shown state)
                            else shown state)
                          j)
                      remaining
                  ∙ ap
                      (λ (st : MediaStream).
                        (if is_bare (filter (λ t. not (t == payload.track)) (page.tracks st.ref))
                            then remove_shown target.user_id st (shown state)
                            else shown state)
                          j)
                      same)
          | inr absent ↦ rw (e, remove_stream_track, absent) (unchanged (ap has_target e ∙ absent))
        ]
      ]

  remove_user-shown :
      (state : StreamsState) (user_id : String) (page : Page) (j : String)
      → IsPlainKey user_id
      → shown (remove_user_streams lib state user_id page).0 j ≡ clear_shown user_id (shown state) j
  unfolding remove_user_streams
  remove_user-shown state user_id page j plain =
      rw (lib.omit_plain UserStreams state user_id plain) (
        ap (λ o. media_of (user_streams_or_new j o).streams) (get-without state user_id j)
        ∙ ground arith)

  -- The streams' reducer does to the media streams that each user has, in their order, what the
  -- action says: a stream that comes, by itself, with a track or from the local user's devices, is
  -- put behind the others of its owner unless it is among them; one that goes, by itself or with
  -- its last track, is taken from its owner's; a user who leaves loses all of theirs, hanging up
  -- clears everyone's, and nothing else changes. The id of a leaving user must be a plain key.
  pub streams-shown :
      (state : StreamsState) (action : Action) (page : Page)
      → HasPlainIds action
      → shown (streams lib state action page).0 ≡ act_shown action page.tracks (shown state)
  unfolding streams get
  streams-shown state (Action.stream_add p) page plain = λ i j. add_stream-shown state p page j i
  streams-shown state (Action.stream_remove p) page plain =
      λ i j. remove_stream-shown state p page j i
  streams-shown state (Action.stream_track_add p) page plain =
      λ i j. add_stream_track-shown state p page j i
  streams-shown state (Action.stream_track_remove p) page plain =
      λ i j. remove_stream_track-shown state p page j i
  streams-shown state (Action.nickname_remove user_id) page plain =
      λ i j. remove_user-shown state user_id page j plain i
  streams-shown state Action.hang_up page plain = refl
  streams-shown state (Action.media_stream (resolved p)) page plain =
      λ i j. add_stream-shown state p page j i
  streams-shown state _ page plain = refl
