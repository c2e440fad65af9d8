-- ===== src/Reducers/Streams/Distinctness.antt =====
-- Lists of streams with no stream twice (src/client/reducers/streams.ts).
use model_lib.Prelude.{◌≡◌, refl, Bool, false, ◌||◌, List, [], ◌∷◌, ◌++◌, arith, filter}
use model_lib.Actions.{MediaStream}
use model_lib.Reducers.Streams.{StreamWithUrl, has_stream}

-- No stream stands twice in the list.
abbrev pub Distinct : List StreamWithUrl → Type 0
Distinct [] = Unit
Distinct (s ∷ rest) = (has_stream rest s.stream ≡ false) × Distinct rest

pub has_stream-append :
    (xs ys : List StreamWithUrl) (stream : MediaStream)
    → has_stream (xs ++ ys) stream ≡ (has_stream xs stream || has_stream ys stream)
has_stream-append [] ys stream = refl
has_stream-append (x ∷ xs) ys stream = ground (arith, has_stream-append xs ys stream)

pub Distinct-append :
    (xs : List StreamWithUrl) (a : StreamWithUrl)
    → Distinct xs
    → has_stream xs a.stream ≡ false
    → Distinct (xs ++ a ∷ [])
Distinct-append [] a d h = (refl, tt)
Distinct-append (x ∷ xs) a d h = (
  ground (arith, has_stream-append xs (a ∷ []) x.stream),
  Distinct-append xs a d.1 (ground arith),
)

pub has_stream-filter :
    (p : StreamWithUrl → Bool) (xs : List StreamWithUrl) (stream : MediaStream)
    → has_stream xs stream ≡ false
    → has_stream (filter p xs) stream ≡ false
has_stream-filter p [] stream h = refl
has_stream-filter p (x ∷ xs) stream h = ground (arith, has_stream-filter p xs stream)

pub Distinct-filter :
    (p : StreamWithUrl → Bool) (xs : List StreamWithUrl) → Distinct xs → Distinct (filter p xs)
Distinct-filter p [] d = tt
Distinct-filter p (x ∷ xs) d =
    ground (arith, has_stream-filter p xs x.stream d.0, Distinct-filter p xs d.1)
