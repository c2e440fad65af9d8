-- ===== src/Prelude/Dict.antt =====
-- JavaScript objects used as dictionaries with string keys: own properties in insertion order.
-- Reading a missing key gives `none` (undefined). Keys that read as array indices, which the
-- language lists first, and names that `Object.prototype` has are outside the model.
use Prim.Native.String.{String}
use mathlib.Core.Path.{◌≡◌, refl}
use mathlib.Core.Logic.{◌≢◌}
use mathlib.Core.Option.{Option, none, some}
use mathlib.Core.List.{List, [], ◌∷◌, map}
use native.Mathlib.Omega.{arith}
use text.Mathlib.Text.{◌==◌ as ◌=?◌}
use text.Mathlib.TextEquality.{eq_iff}
use text.Mathlib.TextPositions.{eq_refl}
use model_lib.Prelude.Tests.{if◌then◌else◌}

abbrev pub Dict {ℓ} : Type ℓ → Type ℓ
Dict V = List (String × V)

module _ {ℓ} {V : Type ℓ} where
  -- d[k]
  unfoldable pub get : Dict V → String → Option V
  get [] k = none
  get ((j, v) ∷ d) k = if j =? k then some v else get d k

  -- { ...d, [k]: v }
  unfoldable pub put : Dict V → String → V → Dict V
  put [] k v = (k, v) ∷ []
  put ((j, w) ∷ d) k v = if j =? k then (j, v) ∷ d else (j, w) ∷ put d k v

  -- { ...d } after `delete d[k]`
  unfoldable pub without : Dict V → String → Dict V
  without [] k = []
  without ((j, v) ∷ d) k = let rest = without d k in if j =? k then rest else (j, v) ∷ rest

  -- Object.keys(d)
  abbrev pub keys : Dict V → List String
  keys = map (λ e. e.0)

  pub get-put :
      (d : Dict V) (k j : String) (v : V) → get (put d k v) j ≡ (if k =? j then some v else get d j)
  unfolding get put
  get-put [] k j v = refl
  get-put ((i, w) ∷ d) k j v = ground (arith, get-put d k j v, eq_iff i k, eq_iff i j, eq_iff k j)

  pub get-without :
      (d : Dict V) (k j : String) → get (without d k) j ≡ (if k =? j then none else get d j)
  unfolding get without
  get-without [] k j = ground arith
  get-without ((i, w) ∷ d) k j =
      ground (arith, get-without d k j, eq_iff i k, eq_iff i j, eq_iff k j)

  -- Deleting a key that is absent changes nothing, the order of the keys included.
  pub without_of_get-none : (d : Dict V) (k : String) → get d k ≡ none → without d k ≡ d
  unfolding get without
  without_of_get-none [] k h = refl
  without_of_get-none ((i, w) ∷ d) k h = ground (arith, without_of_get-none d k)

  pub without-put : (d : Dict V) (k : String) (v : V) → without (put d k v) k ≡ without d k
  unfolding put without
  without-put [] k v = ground (arith, eq_iff k k)
  without-put ((i, w) ∷ d) k v = ground (arith, without-put d k v)

  pub get-put_self : (d : Dict V) (k : String) (v : V) → get (put d k v) k ≡ some v
  get-put_self d k v = simp (get-put, eq_refl)

  pub get-without_self : (d : Dict V) (k : String) → get (without d k) k ≡ none
  get-without_self d k = simp (get-without, eq_refl)

  pub get-put_ne : (d : Dict V) (k j : String) (v : V) → k ≢ j → get (put d k v) j ≡ get d j
  get-put_ne d k j v h = simp get-put (ground (arith, eq_iff k j))

  pub get-without_ne : (d : Dict V) (k j : String) → k ≢ j → get (without d k) j ≡ get d j
  get-without_ne d k j h = simp get-without (ground (arith, eq_iff k j))

pub ruleset dict_laws = (get-put, get-without)
