-- ===== src/Prelude/Lists.antt =====
-- Lists measured by native numbers, Boolean filters and folds, under the library's names.
use Prim.Native.Nat.{ℕ, zero, suc, ◌+◌, ◌-◌}
use mathlib.Core.Path.{◌≡◌, refl}
use mathlib.Core.Bool.{Bool, false, ◌||◌}
use mathlib.Core.List.{List, [], ◌∷◌, ◌++◌}
use native.Mathlib.Omega.{arith}
use model_lib.Prelude.Tests.{if◌then◌else◌}

abbrev pub All {ℓ κ} : {A : Type ℓ} → (A → Type κ) → List A → Type κ
All P [] = Unit
All P (x ∷ xs) = P x × All P xs

module _ {ℓ} {A : Type ℓ} where
  abbrev pub length : List A → ℕ
  length [] = 0
  length (x ∷ xs) = suc (length xs)

  abbrev pub filter : (A → Bool) → List A → List A
  filter p [] = []
  filter p (x ∷ xs) = let rest = filter p xs in if p x then x ∷ rest else rest

  abbrev pub any : (A → Bool) → List A → Bool
  any p [] = false
  any p (x ∷ xs) = p x || any p xs

  abbrev pub drop : ℕ → List A → List A
  drop zero xs = xs
  drop (suc n) [] = []
  drop (suc n) (x ∷ xs) = drop n xs

  pub length-append : (xs ys : List A) → length (xs ++ ys) ≡ length xs + length ys
  length-append [] ys = omega arith
  length-append (x ∷ xs) ys = omega (arith, length-append xs ys)

  pub length-drop : (n : ℕ) (xs : List A) → length (drop n xs) ≡ length xs - n
  length-drop zero xs = omega arith
  length-drop (suc n) [] = omega arith
  length-drop (suc n) (x ∷ xs) = omega (arith, length-drop n xs)

module _ {ℓ κ} {A : Type ℓ} {S : Type κ} where
  -- A loop over a list that changes a state.
  abbrev pub for_each : (A → S → S) → List A → S → S
  for_each f [] s = s
  for_each f (x ∷ xs) s = for_each f xs (f x s)

  pub for_each-append :
      (f : A → S → S) (xs ys : List A) (s : S)
      → for_each f (xs ++ ys) s ≡ for_each f ys (for_each f xs s)
  for_each-append f [] ys s = refl
  for_each-append f (x ∷ xs) ys s = for_each-append f xs ys (f x s)

module _ {ℓ κ μ} {A : Type ℓ} {S : Type κ} (f : A → S → S) (I : S → Type μ) where
  -- A loop keeps what each round keeps.
  pub for_each_keeps :
      ((x : A) (s : S) → I s → I (f x s)) → (xs : List A) (s : S) → I s → I (for_each f xs s)
  for_each_keeps keep [] s i = i
  for_each_keeps keep (x ∷ xs) s i = for_each_keeps keep xs (f x s) (keep x s i)

  hold {ν} :
      (Q : A → S → Type ν)
      → ((x : A) (s : S) → I s → I (f x s))
      → ((x y : A) (s : S) → I s → Q x s → Q x (f y s))
      → (ys : List A) (x : A) (s : S) → I s
      → Q x s
      → Q x (for_each f ys s)
  hold Q keep stay [] x s i q = q
  hold Q keep stay (y ∷ ys) x s i q = hold Q keep stay ys x (f y s) (keep y s i) (stay x y s i q)

  -- What a round establishes for its element, and the later rounds keep, holds of all elements.
  pub for_each-All {ν} :
      (Q : A → S → Type ν)
      → ((x : A) (s : S) → I s → I (f x s))
      → ((x : A) (s : S) → I s → Q x (f x s))
      → ((x y : A) (s : S) → I s → Q x s → Q x (f y s))
      → (xs : List A) (s : S) → I s
      → All (λ x. Q x (for_each f xs s)) xs
  for_each-All Q keep make stay [] s i = tt
  for_each-All Q keep make stay (x ∷ xs) s i = (
    (hold Q keep stay xs x (f x s) (keep x s i) (make x s i)),
    for_each-All Q keep make stay xs (f x s) (keep x s i),
  )

module _ {ℓ κ} {A : Type ℓ} (P : A → Type κ) where
  pub All-append : (xs ys : List A) → All P xs → All P ys → All P (xs ++ ys)
  All-append [] ys hx hy = hy
  All-append (x ∷ xs) ys hx hy = (hx.0, All-append xs ys hx.1 hy)

  pub All-filter : (p : A → Bool) (xs : List A) → All P xs → All P (filter p xs)
  All-filter p [] h = tt
  All-filter p (x ∷ xs) h = ground (arith, All-filter p xs h.1)

module _ {ℓ κ μ} {A : Type ℓ} (P : A → Type κ) (Q : A → Type μ) where
  pub All-map : ((x : A) → P x → Q x) → (xs : List A) → All P xs → All Q xs
  All-map f [] h = tt
  All-map f (x ∷ xs) h = (f x h.0, All-map f xs h.1)
