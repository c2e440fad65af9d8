-- ===== src/Lodash.antt =====
-- The functions of lodash that the client calls, which the repository does not hold, and what it
-- relies on. `omit` reads a key as a path only if the object has no such key and the key has a
-- dot or a bracket; the ids that the server hands out and "_me_" have neither.
use Prim.Native.Char.{code}
use Prim.Native.Nat.{ℕ}
use Prim.Native.String.{String, [], ◌∷◌}
use mathlib.Core.List.{List, [], ◌∷◌}
use mathlib.Core.Option.{Option, none, some}
use text.Mathlib.Text.{◌==◌ as ◌=?◌}
use mathlib.Core.Path.{◌≡◌}
use mathlib.Core.Logic.{◌≢◌}
use model_lib.Prelude.{if◌then◌else◌}
use model_lib.Prelude.Dict.{Dict, get, without}

abbrev pub IsPlainKey : String → Type 0
IsPlainKey [] = Unit
IsPlainKey (c ∷ s) = (code c ≢ b'.') × (code c ≢ b'[') × IsPlainKey s

abbrev pub last_or : {V : Type 0} → Option V → Option V → Option V
last_or none o = o
last_or (some v) o = some v

-- The last of the values that a function takes to a key.
abbrev pub last_with : {V : Type 0} → (V → String) → String → List V → Option V
last_with f k [] = none
last_with f k (v ∷ vs) = last_or (last_with f k vs) (if f v =? k then some v else none)

pub record Lodash : Type 1 where
  -- omit(object, keys)
  pub omit : (V : Type 0) → Dict V → List String → Dict V
  -- the entries that forEach(object, f) passes to f, in order
  pub entries : (V : Type 0) → Dict V → List (String × V)
  -- keyBy(list, f)
  pub key_by : (V : Type 0) → (V → String) → List V → Dict V
  -- uniqueId(prefix), at the call with this number
  pub unique_id : String → ℕ → String
  pub omit_own :
      (V : Type 0) (d : Dict V) (k : String) (v : V)
      → get d k ≡ some v
      → omit V d (k ∷ []) ≡ without d k
  pub omit_plain :
      (V : Type 0) (d : Dict V) (k : String) → IsPlainKey k → omit V d (k ∷ []) ≡ without d k
  pub entries_all : (V : Type 0) (d : Dict V) → entries V d ≡ d
  pub key_by_last :
      (V : Type 0) (f : V → String) (vs : List V) (k : String)
      → get (key_by V f vs) k ≡ last_with f k vs
  pub unique_id_injective :
      (prefix : String) (m n : ℕ) → unique_id prefix m ≡ unique_id prefix n → m ≡ n
