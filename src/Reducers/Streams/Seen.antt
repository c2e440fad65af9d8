-- ===== src/Reducers/Streams/Seen.antt =====
-- What is seen of the streams' reducer's state: which media streams each user has, in their order,
-- and what an action does to that (src/client/reducers/streams.ts).
use model_lib.Prelude.{
  ℕ, String, ◌≡◌, ◌≢◌, refl, sym, ap, ◌∙◌, subst, Bool, true, false, not, List, [], ◌∷◌, ◌++◌, map,
  filter, any, if◌then◌else◌, ◌=?◌, ◌==◌, arith, eq_iff, eq_refl, Bool-cases, inl, inr,
}
use mathlib.Core.Bool.{false≢true}
use model_lib.Prelude.Dict.{get}
use model_lib.Actions.{Action, resolved, MediaStream, Track, StreamTrackPayload}
use model_lib.Page.{same_stream}
use model_lib.Reducers.Streams.{
  owner, StreamWithUrl, StreamWithUserId, get_stream_with_user_id, StreamsState, has_stream,
  other_streams, user_streams_or_new,
}
use model_lib.Reducers.Streams.Entries.{streams_of}
use model_lib.Reducers.Streams.Frame.{stream-get_stream_with_user_id}

-- The media streams of each user.
abbrev pub Shown : Type 0
Shown = String → List MediaStream

abbrev pub media_of : List StreamWithUrl → List MediaStream
media_of = map (λ s. s.stream)

abbrev pub shown : StreamsState → Shown
shown state k = media_of (streams_of state k)

abbrev pub has : MediaStream → List MediaStream → Bool
has stream = any (λ s. same_stream s stream)

-- A user gets a stream, unless they have it.
abbrev pub add_shown : String → MediaStream → Shown → Shown
add_shown k stream f j =
    if (k =? j) then (if has stream (f j) then f j else f j ++ stream ∷ []) else f j

-- A user loses a stream.
abbrev pub remove_shown : String → MediaStream → Shown → Shown
remove_shown k stream f j = if k =? j then filter (λ s. not (same_stream s stream)) (f j) else f j

-- Whether a stream is left without a track.
abbrev pub is_bare : List Track → Bool
is_bare [] = true
is_bare (t ∷ ts) = false

-- A user loses all streams.
abbrev pub clear_shown : String → Shown → Shown
clear_shown k f j = if k =? j then [] else f j

-- What an action does, by the tracks that streams have before it.
abbrev pub act_shown : Action → (tracks : ℕ → List Track) → Shown → Shown
act_shown (Action.stream_add p) tracks f = add_shown (owner p.user_id p.stream) p.stream f
act_shown (Action.stream_remove p) tracks f = remove_shown (owner p.user_id p.stream) p.stream f
act_shown (Action.stream_track_add p) tracks f = add_shown (owner p.user_id p.stream) p.stream f
act_shown (Action.stream_track_remove p) tracks f =
    if is_bare (filter (λ t. not (t == p.track)) (tracks p.stream.ref))
    then remove_shown (owner p.user_id p.stream) p.stream f
    else f
act_shown (Action.nickname_remove user_id) tracks f = clear_shown user_id f
act_shown Action.hang_up tracks f = λ j. []
act_shown (Action.media_stream (resolved p)) tracks f =
    add_shown (owner p.user_id p.stream) p.stream f
act_shown _ tracks f = f

pub has-media_of :
    (stream : MediaStream) (ss : List StreamWithUrl)
    → has stream (media_of ss) ≡ has_stream ss stream
has-media_of stream [] = refl
has-media_of stream (s ∷ ss) = cc (has-media_of stream ss)

pub filter-media_of :
    (stream : MediaStream) (ss : List StreamWithUrl)
    → media_of (other_streams stream ss) ≡ filter (λ s. not (same_stream s stream)) (media_of ss)
filter-media_of stream [] = refl
filter-media_of stream (s ∷ ss) = ground (arith, filter-media_of stream ss)

pub media_of-append :
    (ss : List StreamWithUrl) (s : StreamWithUrl)
    → media_of (ss ++ s ∷ []) ≡ media_of ss ++ s.stream ∷ []
media_of-append [] s = refl
media_of-append (r ∷ ss) s = cc (media_of-append ss s)

-- What holds at a key, and elsewhere, holds.
pub at_key :
    (k j : String) (P : String → Type 0)
    → ((k =? k) ≡ true → P k)
    → (k ≢ j → (k =? j) ≡ false → P j)
    → P j
at_key k j P own other = elim (Bool-cases (k =? j)) [
  | inl same ↦ subst P ((eq_iff k j).0 same) (own (eq_refl k))
  | inr ne ↦ other (λ e. false≢true (sym ne ∙ (eq_iff k j).1 e)) ne
]

pub shown-get :
    (state state' : StreamsState) (j : String)
    → get state' j ≡ get state j
    → shown state' j ≡ shown state j
shown-get state state' j e = ap (λ o. media_of (user_streams_or_new j o).streams) e

filter-all :
    (stream : MediaStream) (ss : List StreamWithUrl)
    → has_stream ss stream ≡ false
    → filter (λ s. not (same_stream s stream)) (media_of ss) ≡ media_of ss
filter-all stream [] absent = refl
filter-all stream (s ∷ ss) absent = ground (arith, filter-all stream ss, absent)

-- Adding a stream that is there, and removing one that is not, changes nothing.
pub add_shown-same :
    (state : StreamsState) (k : String) (stream : MediaStream) (j : String)
    → has_stream (streams_of state k) stream ≡ true
    → shown state j ≡ add_shown k stream (shown state) j
add_shown-same state k stream j there =
    at_key k j (λ j. shown state j ≡ add_shown k stream (shown state) j)
      (λ own. rw (own, has-media_of stream (streams_of state k), there) refl) (λ ne e. rw e refl)

pub remove_shown-same :
    (state : StreamsState) (k : String) (stream : MediaStream) (j : String)
    → has_stream (streams_of state k) stream ≡ false
    → shown state j ≡ remove_shown k stream (shown state) j
remove_shown-same state k stream j absent =
    at_key k j (λ j. shown state j ≡ remove_shown k stream (shown state) j)
      (λ own. rw own (sym (filter-all stream (streams_of state k) absent))) (λ ne e. rw e refl)

pub either_way : (b : Bool) (f g : Shown) (j : String) → f j ≡ g j → f j ≡ (if b then g else f) j
either_way true f g j e = e
either_way false f g j e = refl

-- The user that a payload's stream belongs to, as the reducer finds it.
abbrev pub target_of : StreamTrackPayload → StreamWithUserId
target_of p = get_stream_with_user_id (record { stream = p.stream; user_id = p.user_id })

pub target_stream : (p : StreamTrackPayload) → (target_of p).stream ≡ p.stream
target_stream p = stream-get_stream_with_user_id _
