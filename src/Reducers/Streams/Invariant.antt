-- ===== src/Reducers/Streams/Invariant.antt =====
-- The streams state (src/client/reducers/streams.ts) stays well formed under every action.
use model_lib.Prelude.{
  ap, All, All-append, All-filter, String, ◌≡◌, ◌≢◌, refl, false, Option, none, some, List, [], ◌∷◌,
  ◌++◌, arith, eq_iff, Bool-cases, Option-cases, inl, inr,
}
use model_lib.Prelude.Dict.{get, put, without, dict_laws}
use model_lib.Actions.{
  Action, StreamType, AddStreamPayload, RemoveStreamPayload, StreamTrackPayload, Track, resolved,
}
use model_lib.Page.{Page}
use model_lib.Lodash.{Lodash, IsPlainKey}
use model_lib.Reducers.Streams.{
  owner, get_stream_with_user_id, StreamWithUrl, UserStreams, StreamsState, StreamWithUserId,
  has_stream, user_streams_or_new, add_resolved, add_stream, remove_resolved, remove_stream,
  remove_found, remove_stream_track, add_stream_track, remove_user_streams, streams,
  remove_if_empty,
}
use model_lib.Reducers.Streams.SfuIds.{get_stream_with_user_id_idem}
use model_lib.Reducers.Streams.Distinctness.{Distinct, Distinct-append, Distinct-filter}

-- What holds of the entry of user `k`.
pub record IsEntry (k : String) (u : UserStreams) : Type 0 where
  pub owned : u.user_id ≡ k
  pub some_stream : u.streams ≢ []
  pub distinct : Distinct u.streams
  pub filed : All (λ s. owner k s.stream ≡ k) u.streams

pub record IsWellFormed (state : StreamsState) : Type 0 where
  pub at_key : (k : String) (u : UserStreams) → get state k ≡ some u → IsEntry k u

put-IsWellFormed :
    (state : StreamsState) (k : String) (u : UserStreams)
    → IsWellFormed state
    → IsEntry k u
    → IsWellFormed (put state k u)
put-IsWellFormed state k u w e = record {
  at_key = λ j v. simp dict_laws (ground (arith, w.at_key j v, eq_iff k j));
}

without-IsWellFormed :
    (state : StreamsState) (k : String) → IsWellFormed state → IsWellFormed (without state k)
without-IsWellFormed state k w = record {
  at_key = λ j v. simp dict_laws (ground (arith, w.at_key j v));
}

append-ne-nil : (xs : List StreamWithUrl) (a : StreamWithUrl) → (xs ++ a ∷ []) ≢ []
append-ne-nil [] a = cc
append-ne-nil (x ∷ xs) a = cc

-- The entry that `addStream` writes, from the one that it found.
append-IsEntry :
    (k : String) (o : Option UserStreams) (a : StreamWithUrl)
    → ((u : UserStreams) → o ≡ some u → IsEntry k u)
    → has_stream (user_streams_or_new k o).streams a.stream ≡ false
    → owner k a.stream ≡ k
    → IsEntry k (record { user_id = k; streams = (user_streams_or_new k o).streams ++ a ∷ [] })
append-IsEntry k none a h fresh own = record {
  owned = refl;
  some_stream = cc;
  distinct = (refl, tt);
  filed = (own, tt);
}
append-IsEntry k (some u) a h fresh own = record {
  owned = refl;
  some_stream = append-ne-nil u.streams a;
  distinct = Distinct-append u.streams a (h u refl).distinct fresh;
  filed = All-append (λ s. owner k s.stream ≡ k) u.streams (a ∷ []) (h u refl).filed (own, tt);
}

add_resolved-IsWellFormed :
    (state : StreamsState) (target : StreamWithUserId) (type : Option StreamType) (page : Page)
    → get_stream_with_user_id target ≡ target
    → IsWellFormed state
    → IsWellFormed (add_resolved state target type page).0
unfolding add_resolved
add_resolved-IsWellFormed state target type page e w =
    let found = get state target.user_id in
    let old = user_streams_or_new target.user_id found in
    elim (Bool-cases (has_stream old.streams target.stream)) [
      | inl there ↦ rw there w
      | inr fresh ↦ rw fresh (
          put-IsWellFormed state target.user_id _ w (
            append-IsEntry target.user_id found _ (w.at_key target.user_id) fresh
              (ap (λ (t : StreamWithUserId). t.user_id) e)))
    ]

pub add_stream-IsWellFormed :
    (state : StreamsState) (payload : AddStreamPayload) (page : Page)
    → IsWellFormed state
    → IsWellFormed (add_stream state payload page).0
unfolding add_stream
add_stream-IsWellFormed state payload page w =
    add_resolved-IsWellFormed state _ _ page (get_stream_with_user_id_idem _) w

-- The user ids that reach `omit` in this reducer with no check that they are keys.
abbrev pub HasPlainIds : Action → Type 0
HasPlainIds (Action.nickname_remove user_id) = IsPlainKey user_id
HasPlainIds _ = Unit

pub empty-IsWellFormed : IsWellFormed []
unfolding get
empty-IsWellFormed = record { at_key = λ k u e. cc }

module _ (lib : Lodash) where
  remove_found-IsWellFormed :
      (state : StreamsState) (target : StreamWithUserId) (u : UserStreams)
      (kept : List StreamWithUrl) (page : Page)
      → IsWellFormed state
      → get state target.user_id ≡ some u
      → Distinct kept
      → All (λ s. owner target.user_id s.stream ≡ target.user_id) kept
      → IsWellFormed (remove_found lib state target u kept page).0
  unfolding remove_found
  remove_found-IsWellFormed state target u [] page w e d f =
      rw (lib.omit_own UserStreams state target.user_id u e)
        (without-IsWellFormed state target.user_id w)
  remove_found-IsWellFormed state target u (s ∷ kept) page w e d f =
      put-IsWellFormed state target.user_id _ w
        (record { owned = refl; some_stream = cc; distinct = d; filed = f })

  remove_resolved-IsWellFormed :
      (state : StreamsState) (target : StreamWithUserId) (page : Page)
      → IsWellFormed state
      → IsWellFormed (remove_resolved lib state target page).0
  unfolding remove_resolved
  remove_resolved-IsWellFormed state target page w =
      elim (Option-cases (get state target.user_id)) [
        | inl missing ↦ rw (missing, remove_resolved) w
        | inr (u, e) ↦
            rw (e, remove_resolved)
              (remove_found-IsWellFormed state target u _ _ w e
                (Distinct-filter _ u.streams (w.at_key target.user_id u e).distinct)
                (All-filter (λ s. owner target.user_id s.stream ≡ target.user_id) _ u.streams
                  (w.at_key target.user_id u e).filed))
      ]

  pub remove_stream-IsWellFormed :
      (state : StreamsState) (payload : RemoveStreamPayload) (page : Page)
      → IsWellFormed state
      → IsWellFormed (remove_stream lib state payload page).0
  unfolding remove_stream
  remove_stream-IsWellFormed state payload page w = remove_resolved-IsWellFormed state _ page w

  remove_if_empty-IsWellFormed :
      (state : StreamsState) (target : StreamWithUserId) (left : List Track) (page : Page)
      → IsWellFormed state
      → IsWellFormed (remove_if_empty lib state target left page).0
  unfolding remove_if_empty
  remove_if_empty-IsWellFormed state target [] page w = remove_stream-IsWellFormed state _ page w
  remove_if_empty-IsWellFormed state target (t ∷ left) page w = w

  pub remove_stream_track-IsWellFormed :
      (state : StreamsState) (payload : StreamTrackPayload) (page : Page)
      → IsWellFormed state
      → IsWellFormed (remove_stream_track lib state payload page).0
  unfolding remove_stream_track
  remove_stream_track-IsWellFormed state payload page w =
      grind (arith, remove_if_empty-IsWellFormed)

  pub add_stream_track-IsWellFormed :
      (state : StreamsState) (payload : StreamTrackPayload) (page : Page)
      → IsWellFormed state
      → IsWellFormed (add_stream_track lib state payload page).0
  unfolding add_stream_track
  add_stream_track-IsWellFormed state payload page w = grind (arith, add_stream-IsWellFormed)

  pub remove_user_streams-IsWellFormed :
      (state : StreamsState) (user_id : String) (page : Page)
      → IsPlainKey user_id
      → IsWellFormed state
      → IsWellFormed (remove_user_streams lib state user_id page).0
  unfolding remove_user_streams
  remove_user_streams-IsWellFormed state user_id page plain w =
      rw (lib.omit_plain UserStreams state user_id plain) (without-IsWellFormed state user_id w)

  -- Every action keeps the streams state well formed: each user's entry carries the user's id,
  -- holds at least one stream, holds no stream twice, and holds only streams that are filed
  -- under the user; the id of a leaving user must be one that lodash reads as a plain key.
  pub streams-IsWellFormed :
      (state : StreamsState) (action : Action) (page : Page)
      → HasPlainIds action
      → IsWellFormed state
      → IsWellFormed (streams lib state action page).0
  unfolding streams
  streams-IsWellFormed state (Action.stream_add payload) page plain w =
      add_stream-IsWellFormed state payload page w
  streams-IsWellFormed state (Action.stream_remove payload) page plain w =
      remove_stream-IsWellFormed state payload page w
  streams-IsWellFormed state (Action.stream_track_add payload) page plain w =
      add_stream_track-IsWellFormed state payload page w
  streams-IsWellFormed state (Action.stream_track_remove payload) page plain w =
      remove_stream_track-IsWellFormed state payload page w
  streams-IsWellFormed state (Action.nickname_remove user_id) page plain w =
      remove_user_streams-IsWellFormed state user_id page plain w
  streams-IsWellFormed state Action.hang_up page plain w = empty-IsWellFormed
  streams-IsWellFormed state (Action.media_stream (resolved payload)) page plain w =
      add_stream-IsWellFormed state payload page w
  streams-IsWellFormed state _ page plain w = w
