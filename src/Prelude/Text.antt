-- ===== src/Prelude/Text.antt =====
-- `String.prototype.split` by the underscore, and the laws of it that the program relies on.
use Prim.Native.Char.{Char, code}
use Prim.Native.String
use Prim.Native.String.{String, [], ◌∷◌}
use mathlib.Core.Path.{◌≡◌, refl}
use mathlib.Core.Logic.{◌≢◌}
use mathlib.Core.List.{List, [], ◌∷◌}
use native.Mathlib.Omega.{arith}
use text.Mathlib.TextLemmas.{nil-append, cons-append}
use model_lib.Prelude.Tests.{◌==◌, if◌then◌else◌}

-- The first part of a split gets one more character in front.
cons_head : Char → List String → List String
cons_head c [] = (c ∷ []) ∷ []
cons_head c (s ∷ parts) = (c ∷ s) ∷ parts

-- s.split('_')
unfoldable pub split : String → List String
unfolding cons_head
split [] = "" ∷ []
split (c ∷ s) = let parts = split s in if code c == b'_' then "" ∷ parts else cons_head c parts

-- No character of the text is an underscore.
abbrev pub HasNoUnderscore : String → Type 0
HasNoUnderscore [] = Unit
HasNoUnderscore (c ∷ s) = (code c ≢ b'_') × HasNoUnderscore s

pub split_of_HasNoUnderscore : (s : String) → HasNoUnderscore s → split s ≡ s ∷ []
unfolding split
split_of_HasNoUnderscore [] h = refl
split_of_HasNoUnderscore (c ∷ s) h = ground (arith, split_of_HasNoUnderscore s h.1)

pub split-append :
    (s t : String) → HasNoUnderscore s → split (String.◌++◌ s (String.◌++◌ "_" t)) ≡ s ∷ split t
unfolding split
split-append [] t h = rw (nil-append, cons-append, nil-append) refl
split-append (c ∷ s) t h = rw cons-append (ground (arith, split-append s t h.1))
