-- ===== src/Components/Videos/Placing.antt =====
-- Where each video goes (getStreams in src/client/components/Videos.tsx).
use model_lib.Prelude.{
  String, ◌≡◌, refl, sym, ap, ◌∙◌, not, Option, none, some, List, [], ◌∷◌, ◌++◌, for_each, filter,
  map, Bool, All, All-append, Bool-cases, inl, inr,
}
use mathlib.Core.List.{append_assoc, append-nil, map-append}
use model_lib.Prelude.Dict.{get}
use model_lib.Lodash.{Lodash}
use model_lib.Reducers.Nicknames.{Nicknames}
use model_lib.Reducers.Streams.{StreamWithUrl, UserStreams, StreamsState}
use model_lib.Reducers.WindowStates.{WindowStates, get_stream_key}
use model_lib.Components.Videos.{
  StreamProps, Placed, is_small, add_stream_props, empty_props, stream_props, add_user_streams,
  add_streams_by_user, get_streams,
}

-- The videos of a user: one for each stream, or one without a stream.
abbrev pub videos_of : WindowStates → String → Option UserStreams → List StreamProps
videos_of ws k none = empty_props ws k ∷ []
videos_of ws k (some u) = map (stream_props ws k) u.streams

abbrev pub all_videos : WindowStates → StreamsState → Nicknames → List StreamProps
all_videos ws streams [] = []
all_videos ws streams (e ∷ es) = videos_of ws e.0 (get streams e.0) ++ all_videos ws streams es

abbrev pub small : List StreamProps → List StreamProps
small = filter (λ p. is_small p.window_state)

abbrev pub large : List StreamProps → List StreamProps
large = filter (λ p. not (is_small p.window_state))

-- The lists with more videos placed.
abbrev with_videos : List StreamProps → Placed → Placed
with_videos ps placed = record {
  minimized = placed.minimized ++ small ps;
  maximized = placed.maximized ++ large ps;
}

place_one :
    (p : StreamProps) (ps : List StreamProps) (placed : Placed)
    → with_videos ps (add_stream_props p placed) ≡ with_videos (p ∷ ps) placed
unfolding add_stream_props
place_one p ps placed = elim (Bool-cases (is_small p.window_state)) [
  | inl yes_small ↦ rw yes_small (
      ap
        (λ l.
          let x : Placed = record { minimized = l; maximized = placed.maximized ++ large ps } in x)
        (append_assoc placed.minimized (p ∷ []) (small ps)))
  | inr no_small ↦ rw no_small (
      ap
        (λ l.
          let x : Placed = record { minimized = placed.minimized ++ small ps; maximized = l } in x)
        (append_assoc placed.maximized (p ∷ []) (large ps)))
]

with_no_videos : (placed : Placed) → with_videos [] placed ≡ placed
with_no_videos placed =
    ap (λ l. let x : Placed = record { minimized = l; maximized = placed.maximized ++ [] } in x)
      (append-nil placed.minimized)
    ∙ ap (λ l. let x : Placed = record { minimized = placed.minimized; maximized = l } in x)
        (append-nil placed.maximized)

place_all :
    (ps qs : List StreamProps) (placed : Placed)
    → with_videos qs (for_each add_stream_props ps placed) ≡ with_videos (ps ++ qs) placed
place_all [] qs placed = refl
place_all (p ∷ ps) qs placed =
    place_all ps qs (add_stream_props p placed) ∙ place_one p (ps ++ qs) placed

for_each-map :
    (ws : WindowStates) (k : String) (ss : List StreamWithUrl) (placed : Placed)
    → for_each (λ s. add_stream_props (stream_props ws k s)) ss placed
      ≡ for_each add_stream_props (map (stream_props ws k) ss) placed
for_each-map ws k [] placed = refl
for_each-map ws k (s ∷ ss) placed =
    for_each-map ws k ss (add_stream_props (stream_props ws k s) placed)

add_user_streams-videos_of :
    (ws : WindowStates) (k : String) (o : Option UserStreams) (placed : Placed)
    → add_user_streams ws k o placed ≡ for_each add_stream_props (videos_of ws k o) placed
add_user_streams-videos_of ws k none placed = refl
add_user_streams-videos_of ws k (some u) placed = for_each-map ws k u.streams placed

place_users :
    (ws : WindowStates) (streams : StreamsState) (es : Nicknames) (placed : Placed)
    → for_each (λ e. add_streams_by_user ws streams e.0) es placed
      ≡ with_videos (all_videos ws streams es) placed
unfolding add_streams_by_user
place_users ws streams [] placed = sym (with_no_videos placed)
place_users ws streams (e ∷ es) placed =
    place_users ws streams es (add_user_streams ws e.0 (get streams e.0) placed)
    ∙ ap (with_videos (all_videos ws streams es))
        (add_user_streams-videos_of ws e.0 (get streams e.0) placed)
    ∙ place_all (videos_of ws e.0 (get streams e.0)) (all_videos ws streams es) placed

get_streams-all_videos :
    (lib : Lodash) (ws : WindowStates) (nicknames : Nicknames) (streams : StreamsState)
    → ((get_streams lib ws nicknames streams).minimized ≡ small (all_videos ws streams nicknames))
      × ((get_streams lib ws nicknames streams).maximized ≡ large (all_videos ws streams nicknames))
unfolding get_streams
get_streams-all_videos lib ws nicknames streams =
    let placed : Placed = record { minimized = []; maximized = [] } in
    let same =
      ap (λ es. for_each (λ e. add_streams_by_user ws streams e.0) es placed)
        (lib.entries_all (Option String) nicknames)
      ∙ place_users ws streams nicknames placed in
    (ap (λ (x : Placed). x.minimized) same, ap (λ (x : Placed). x.maximized) same)

-- A video as it is seen: its key, its user and its stream.
abbrev pub Seen : Type 0
Seen = String × String × Option StreamWithUrl

abbrev pub seen : StreamProps → Seen
seen p = (p.key, p.user_id, p.stream)

-- The videos that there are to be.
abbrev wanted_of : String → Option UserStreams → List Seen
wanted_of k none = (get_stream_key k none, k, none) ∷ []
wanted_of k (some u) = map (λ s. (get_stream_key k (some s.stream.id), k, some s)) u.streams

abbrev pub wanted : StreamsState → Nicknames → List Seen
wanted streams [] = []
wanted streams (e ∷ es) = wanted_of e.0 (get streams e.0) ++ wanted streams es

-- Whether the user has minimized a video.
abbrev pub is_minimized : WindowStates → Seen → Bool
is_minimized ws v = is_small (get ws v.0)

-- A video goes by the window state of its key.
abbrev Fits : WindowStates → StreamProps → Type 0
Fits ws p = p.window_state ≡ get ws p.key

seen-small :
    (ws : WindowStates) (ps : List StreamProps)
    → All (Fits ws) ps
    → (map seen (small ps) ≡ filter (is_minimized ws) (map seen ps))
      × (map seen (large ps) ≡ filter (λ v. not (is_minimized ws v)) (map seen ps))
seen-small ws [] fits = (refl, refl)
seen-small ws (p ∷ ps) (fit, fits) =
    let (minimized, maximized) = seen-small ws ps fits in
    elim (Bool-cases (is_small (get ws p.key))) [
      | inl yes_small ↦
          rw (ap is_small fit ∙ yes_small, yes_small) (ap (λ vs. seen p ∷ vs) minimized, maximized)
      | inr no_small ↦
          rw (ap is_small fit ∙ no_small, no_small) (minimized, ap (λ vs. seen p ∷ vs) maximized)
    ]

stream_props-Fits :
    (ws : WindowStates) (k : String) (ss : List StreamWithUrl)
    → All (Fits ws) (map (stream_props ws k) ss)
unfolding stream_props
stream_props-Fits ws k [] = tt
stream_props-Fits ws k (s ∷ ss) = (refl, stream_props-Fits ws k ss)

videos_of-Fits :
    (ws : WindowStates) (k : String) (o : Option UserStreams) → All (Fits ws) (videos_of ws k o)
unfolding empty_props
videos_of-Fits ws k none = (refl, tt)
videos_of-Fits ws k (some u) = stream_props-Fits ws k u.streams

all_videos-Fits :
    (ws : WindowStates) (streams : StreamsState) (es : Nicknames)
    → All (Fits ws) (all_videos ws streams es)
all_videos-Fits ws streams [] = tt
all_videos-Fits ws streams (e ∷ es) =
    All-append (Fits ws) (videos_of ws e.0 (get streams e.0)) (all_videos ws streams es)
      (videos_of-Fits ws e.0 (get streams e.0)) (all_videos-Fits ws streams es)

seen-stream_props :
    (ws : WindowStates) (k : String) (ss : List StreamWithUrl)
    → map seen (map (stream_props ws k) ss)
      ≡ map (λ s. (get_stream_key k (some s.stream.id), k, some s)) ss
unfolding stream_props
seen-stream_props ws k [] = refl
seen-stream_props ws k (s ∷ ss) =
    ap (λ vs. (get_stream_key k (some s.stream.id), k, some s) ∷ vs) (seen-stream_props ws k ss)

seen-videos_of :
    (ws : WindowStates) (k : String) (o : Option UserStreams)
    → map seen (videos_of ws k o) ≡ wanted_of k o
unfolding empty_props
seen-videos_of ws k none = refl
seen-videos_of ws k (some u) = seen-stream_props ws k u.streams

seen-all_videos :
    (ws : WindowStates) (streams : StreamsState) (es : Nicknames)
    → map seen (all_videos ws streams es) ≡ wanted streams es
seen-all_videos ws streams [] = refl
seen-all_videos ws streams (e ∷ es) =
    map-append seen (videos_of ws e.0 (get streams e.0)) (all_videos ws streams es)
    ∙ ap (λ vs. vs ++ map seen (all_videos ws streams es)) (seen-videos_of ws e.0 (get streams e.0))
    ∙ ap (λ vs. wanted_of e.0 (get streams e.0) ++ vs) (seen-all_videos ws streams es)

-- Every user in the call has a video for each of their streams, in the users' and the streams'
-- order, or one video without a stream if they have no entry; each of these videos is shown
-- once, among the minimized ones if the window state of its key is minimized and in the grid
-- otherwise, in their order, and no other video is shown.
pub get_streams_lem :
    (lib : Lodash) (ws : WindowStates) (nicknames : Nicknames) (streams : StreamsState)
    → (map seen (get_streams lib ws nicknames streams).minimized
        ≡ filter (is_minimized ws) (wanted streams nicknames))
      × (map seen (get_streams lib ws nicknames streams).maximized
          ≡ filter (λ v. not (is_minimized ws v)) (wanted streams nicknames))
get_streams_lem lib ws nicknames streams =
    let videos = all_videos ws streams nicknames in
    let (minimized, maximized) = get_streams-all_videos lib ws nicknames streams in
    let (first, second) = seen-small ws videos (all_videos-Fits ws streams nicknames) in
    let same = seen-all_videos ws streams nicknames in
    (
      ap (map seen) minimized ∙ first ∙ ap (filter (is_minimized ws)) same,
      ap (map seen) maximized ∙ second ∙ ap (filter (λ v. not (is_minimized ws v))) same,
    )
