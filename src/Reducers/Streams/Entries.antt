-- ===== src/Reducers/Streams/Entries.antt =====
-- Adding and removing a stream, and how the two relate (addStream and removeStream in
-- src/client/reducers/streams.ts).
use model_lib.Prelude.{
  String, ◌≡◌, refl, sym, ap, ◌∙◌, subst, true, false, Option, some, List, [], ◌∷◌, ◌++◌, arith,
  eq_iff, Bool-cases, Option-cases, inl, inr, ◌=?◌,
}
use mathlib.Core.Bool.{false≢true}
use model_lib.Prelude.Dict.{get, put, get-put_self, get-without_self}
use model_lib.Actions.{MediaStream, StreamType, AddStreamPayload, RemoveStreamPayload}
use model_lib.Page.{Page, safe_create_object_url}
use model_lib.Lodash.{Lodash}
use model_lib.Reducers.Streams.{
  owner, StreamWithUrl, UserStreams, StreamsState, StreamWithUserId, has_stream, other_streams,
  user_streams_or_new, add_resolved, add_stream, remove_resolved, remove_stream, remove_found,
  get_stream_with_user_id,
}
use model_lib.Reducers.Streams.Frame.{
  stream-get_stream_with_user_id, add_stream_ne, remove_stream_ne,
}

-- The streams that a user has.
abbrev pub streams_of : StreamsState → String → List StreamWithUrl
streams_of state k = (user_streams_or_new k (get state k)).streams

-- The element that `addStream` appends.
abbrev pub appended : Page → MediaStream → Option StreamType → StreamWithUrl
appended page stream type = record {
  stream = stream;
  type = type;
  url = page.url_results page.url_calls;
}

streams_of-put :
    (state : StreamsState) (k : String) (u : UserStreams) → streams_of (put state k u) k ≡ u.streams
streams_of-put state k u = ap (λ o. (user_streams_or_new k o).streams) (get-put_self state k u)

streams_of-add_resolved :
    (state : StreamsState) (target : StreamWithUserId) (type : Option StreamType) (page : Page)
    → has_stream (streams_of state target.user_id) target.stream ≡ false
    → streams_of (add_resolved state target type page).0 target.user_id
      ≡ streams_of state target.user_id ++ appended page target.stream type ∷ []
unfolding add_resolved safe_create_object_url
streams_of-add_resolved state target type page h = rw h (streams_of-put state target.user_id _)

-- Adding a stream that its owner does not have puts it behind the owner's other streams, with
-- the type that was given and the URL that the browser made for it, if it made one.
pub streams_of-add_stream :
    (state : StreamsState) (payload : AddStreamPayload) (page : Page)
    → has_stream (streams_of state (owner payload.user_id payload.stream)) payload.stream ≡ false
    → streams_of (add_stream state payload page).0 (owner payload.user_id payload.stream)
      ≡ streams_of state (owner payload.user_id payload.stream)
        ++ appended page payload.stream payload.type ∷ []
unfolding add_stream
streams_of-add_stream state payload page =
    let target =
      get_stream_with_user_id (record { stream = payload.stream; user_id = payload.user_id }) in
    subst
      (λ st.
        has_stream (streams_of state target.user_id) st ≡ false
        → streams_of (add_resolved state target payload.type page).0 target.user_id
          ≡ streams_of state target.user_id ++ appended page st payload.type ∷ [])
      (stream-get_stream_with_user_id _) (streams_of-add_resolved state target payload.type page)

add_resolved_present :
    (state : StreamsState) (target : StreamWithUserId) (type : Option StreamType) (page : Page)
    → has_stream (streams_of state target.user_id) target.stream ≡ true
    → add_resolved state target type page ≡ (state, page)
unfolding add_resolved
add_resolved_present state target type page h = rw h refl

-- Adding a stream that the user already has changes nothing and makes no object URL.
pub add_stream_present :
    (state : StreamsState) (payload : AddStreamPayload) (page : Page)
    → has_stream (streams_of state (owner payload.user_id payload.stream)) payload.stream ≡ true
    → add_stream state payload page ≡ (state, page)
unfolding add_stream
add_stream_present state payload page =
    let target =
      get_stream_with_user_id (record { stream = payload.stream; user_id = payload.user_id }) in
    subst
      (λ st.
        has_stream (streams_of state target.user_id) st ≡ true
        → add_resolved state target payload.type page ≡ (state, page))
      (stream-get_stream_with_user_id _) (add_resolved_present state target payload.type page)

other_streams_last :
    (xs : List StreamWithUrl) (a : StreamWithUrl)
    → has_stream xs a.stream ≡ false
    → other_streams a.stream (xs ++ a ∷ []) ≡ xs
other_streams_last [] a h = ground arith
other_streams_last (x ∷ xs) a h = ground (arith, other_streams_last xs a)

module _ (lib : Lodash) where
  -- What removing a stream leaves of a user's streams.
  streams_of-remove_found :
      (state : StreamsState) (target : StreamWithUserId) (u : UserStreams)
      (kept : List StreamWithUrl) (page : Page)
      → get state target.user_id ≡ some u
      → streams_of (remove_found lib state target u kept page).0 target.user_id ≡ kept
  unfolding remove_found
  streams_of-remove_found state target u [] page e =
      rw (lib.omit_own UserStreams state target.user_id u e) (
        ap (λ o. (user_streams_or_new target.user_id o).streams)
          (get-without_self state target.user_id))
  streams_of-remove_found state target u (s ∷ kept) page e = streams_of-put state target.user_id _

  streams_of-remove_resolved :
      (state : StreamsState) (target : StreamWithUserId) (page : Page)
      → streams_of (remove_resolved lib state target page).0 target.user_id
        ≡ other_streams target.stream (streams_of state target.user_id)
  unfolding remove_resolved
  streams_of-remove_resolved state target page = elim (Option-cases (get state target.user_id)) [
    | inl missing ↦ rw (missing, remove_resolved) (rw (missing, streams_of) refl)
    | inr (u, e) ↦
        rw (e, remove_resolved)
          (streams_of-remove_found state target u _ _ e
            ∙ ap (other_streams target.stream)
                (ap (λ o. (user_streams_or_new target.user_id o).streams) (sym e)))
  ]

  -- Removing a stream leaves the owner's other streams, in their order, and no other.
  pub streams_of-remove_stream :
      (state : StreamsState) (payload : RemoveStreamPayload) (page : Page)
      → streams_of (remove_stream lib state payload page).0 (owner payload.user_id payload.stream)
        ≡ other_streams payload.stream (streams_of state (owner payload.user_id payload.stream))
  unfolding remove_stream
  streams_of-remove_stream state payload page =
      let target =
        get_stream_with_user_id (record { stream = payload.stream; user_id = payload.user_id }) in
      subst
        (λ st.
          streams_of (remove_resolved lib state target page).0 target.user_id
          ≡ other_streams st (streams_of state target.user_id))
        (stream-get_stream_with_user_id _) (streams_of-remove_resolved state target page)

  -- Removing a stream that has just been added gives every user the streams of before, if the
  -- user did not have the stream, whatever the page is by then.
  pub remove_stream-add_stream :
      (state : StreamsState) (payload : AddStreamPayload) (page page' : Page) (k : String)
      → has_stream (streams_of state (owner payload.user_id payload.stream)) payload.stream ≡ false
      → streams_of
          (remove_stream lib
            (add_stream state payload page).0
            (record { user_id = payload.user_id; stream = payload.stream })
            page').0
          k
        ≡ streams_of state k
  remove_stream-add_stream state payload page page' k fresh =
      let gone : RemoveStreamPayload = record {
        user_id = payload.user_id;
        stream = payload.stream;
      } in
      let own = owner payload.user_id payload.stream in
      let added = (add_stream state payload page).0 in
      elim (Bool-cases (own =? k)) [
        | inl same ↦
            subst (λ j. streams_of (remove_stream lib added gone page').0 j ≡ streams_of state j)
              ((eq_iff own k).0 same)
              (streams_of-remove_stream added gone page'
                ∙ ap (other_streams payload.stream) (streams_of-add_stream state payload page fresh)
                ∙ other_streams_last (streams_of state own)
                    (appended page payload.stream payload.type) fresh)
        | inr other ↦
            let ne = λ (e : own ≡ k). false≢true (sym other ∙ (eq_iff own k).1 e) in
            ap (λ o. (user_streams_or_new k o).streams)
              (remove_stream_ne lib added gone page' k ne ∙ add_stream_ne state payload page k ne)
      ]
