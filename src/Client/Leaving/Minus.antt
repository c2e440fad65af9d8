-- ===== src/Client/Leaving/Minus.antt =====
-- Taking all of a user's streams away one after the other.
use model_lib.Prelude.{
  String, ◌≡◌, refl, sym, ap, ◌∙◌, true, none, List, [], ◌∷◌, arith, All, All-map, for_each,
  Option-cases, inl, inr,
}
use model_lib.Prelude.Dict.{get}
use model_lib.Reducers.Streams.{
  StreamWithUrl, StreamsState, owner, has_stream, other_streams, user_streams_or_new,
}
use model_lib.Reducers.Streams.Invariant.{IsWellFormed}
use model_lib.Reducers.Streams.Entries.{streams_of}

-- A user's streams with those of a list taken out one after the other.
abbrev pub minus : List StreamWithUrl → List StreamWithUrl → List StreamWithUrl
minus xs l = for_each (λ s. other_streams s.stream) xs l

-- Each stream of `l` is one of `xs`.
abbrev pub Within : List StreamWithUrl → List StreamWithUrl → Type 0
Within xs l = All (λ s. has_stream xs s.stream ≡ true) l

Within-other_streams :
    (x : StreamWithUrl) (xs l : List StreamWithUrl)
    → Within (x ∷ xs) l
    → Within xs (other_streams x.stream l)
Within-other_streams x xs [] w = tt
Within-other_streams x xs (s ∷ l) w = ground (arith, Within-other_streams x xs l w.1)

pub minus-Within : (xs l : List StreamWithUrl) → Within xs l → minus xs l ≡ []
minus-Within [] [] w = refl
minus-Within [] (s ∷ l) w = cc (w.0)
minus-Within (x ∷ xs) l w =
    minus-Within xs (other_streams x.stream l) (Within-other_streams x xs l w)

pub Within-self : (xs : List StreamWithUrl) → Within xs xs
Within-self [] = tt
Within-self (x ∷ xs) = (
  ground arith,
  All-map (λ s. has_stream xs s.stream ≡ true) (λ s. has_stream (x ∷ xs) s.stream ≡ true)
      (λ s h. ground arith) xs (Within-self xs),
)

abbrev pub Filed : String → List StreamWithUrl → Type 0
Filed k l = All (λ s. owner k s.stream ≡ k) l

-- A user with no streams has no entry.
pub get-none_of_streams_of :
    (state : StreamsState) (k : String)
    → IsWellFormed state
    → streams_of state k ≡ []
    → get state k ≡ none
get-none_of_streams_of state k w h = elim (Option-cases (get state k)) [
  | inl missing ↦ missing
  | inr (u, e) ↦
      absurd
        ((w.at_key k u e).some_stream (sym (ap (λ o. (user_streams_or_new k o).streams) e) ∙ h))
]

pub Filed-streams_of :
    (state : StreamsState) (k : String) → IsWellFormed state → Filed k (streams_of state k)
Filed-streams_of state k w = elim (Option-cases (get state k)) [
  | inl missing ↦ rw (missing, streams_of) tt
  | inr (u, e) ↦ rw (e, streams_of) ((w.at_key k u e).filed)
]
