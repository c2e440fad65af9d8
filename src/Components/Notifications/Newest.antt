-- ===== src/Components/Notifications/Newest.antt =====
-- The newest notification is on top (src/client/components/Notifications.tsx).
use model_lib.Prelude.{
  ℕ, zero, suc, ◌-◌, ◌≤◌, ◌<◌, String, ◌≡◌, refl, ap, ◌∙◌, false, Option, none, some, List, [], ◌∷◌,
  ◌++◌, map, length, drop, length-append, length-drop, ◌==◌, if◌then◌else◌, arith, ◌=?◌, inl, inr,
  Bool-cases,
}
use mathlib.Core.List.{reverse, reverse-append}
use model_lib.Prelude.Dict.{get, put, keys, get-put_self}
use model_lib.Actions.{Action, Notification}
use model_lib.Reducers.Notifications.{NotificationState, handle_notifications}
use model_lib.Components.Notifications.{last_keys, render}

drop-append : (n : ℕ) (xs ys : List String) → n ≤ length xs → drop n (xs ++ ys) ≡ drop n xs ++ ys
drop-append zero xs ys l = refl
drop-append (suc n) [] ys l = absurd (omega (arith, l))
drop-append (suc n) (x ∷ xs) ys l = drop-append n xs ys (omega (arith, l))

not_zero : (max : ℕ) → 0 < max → (max == 0) ≡ false
not_zero max l = ground arith

some_ne_none : (v : Notification) → ¬ (some v ≡ none)
some_ne_none v e = cc

-- A key that is new comes last.
keys-put :
    (d : NotificationState) (k : String) (v : Notification)
    → get d k ≡ none
    → keys (put d k v) ≡ keys d ++ k ∷ []
unfolding get put
keys-put [] k v h = refl
keys-put ((j, w) ∷ d) k v h = elim (Bool-cases (j =? k)) [
  | inl same ↦ absurd (some_ne_none w (rw same at h))
  | inr other ↦ rw other (ap (λ ks. j ∷ ks) (keys-put d k v (rw other at h)))
]

last_keys-append :
    (max : ℕ) (ks : List String) (k : String)
    → 0 < max
    → (rest : List String) × (reverse (last_keys max (ks ++ k ∷ [])) ≡ k ∷ rest)
unfolding last_keys
last_keys-append max ks k l =
    let n = length (ks ++ k ∷ []) - max in
    let short : n ≤ length ks = omega (arith, length-append ks (k ∷ [])) in
    (
      reverse (drop n ks),
      ap (λ b. reverse (if b then ks ++ k ∷ [] else drop n (ks ++ k ∷ []))) (not_zero max l)
          ∙ ap reverse (drop-append n ks (k ∷ []) short)
          ∙ reverse-append (drop n ks) (k ∷ []),
    )

-- A notification whose id is new is shown on top as soon as it is made, if any are to be shown.
pub render-notify :
    (max : ℕ) (state : NotificationState) (n : Notification)
    → 0 < max
    → get state n.id ≡ none
    → (rest : List (Option Notification)) × (render max
          (handle_notifications state (Action.notify n))
        ≡ some n ∷ rest)
unfolding render handle_notifications
render-notify max state n l h =
    let after = put state n.id n in
    let (ks, e) = last_keys-append max (keys state) n.id l in
    (
      map (get after) ks,
      ap (λ l. map (get after) (reverse (last_keys max l))) (keys-put state n.id n h)
          ∙ ap (map (get after)) e
          ∙ ap (λ o. o ∷ map (get after) ks) (get-put_self state n.id n),
    )

length-map : {A B : Type 0} (f : A → B) (xs : List A) → length (map f xs) ≡ length xs
length-map f [] = refl
length-map f (x ∷ xs) = ap suc (length-map f xs)

-- A list is what is dropped of it, and the rest.
drop_splits :
    (n : ℕ) (ks : List String)
    → n ≤ length ks
    → (older : List String) × (ks ≡ older ++ drop n ks) × (length older ≡ n)
drop_splits zero ks l = ([], refl, refl)
drop_splits (suc n) [] l = absurd (omega (arith, l))
drop_splits (suc n) (k ∷ ks) l =
    let (older, e, count) = drop_splits n ks (omega (arith, l)) in
    (k ∷ older, ap (λ rest. k ∷ rest) e, ap suc count)

last_keys-drop :
    (max : ℕ) (ks : List String) → 0 < max → last_keys max ks ≡ drop (length ks - max) ks
unfolding last_keys
last_keys-drop max ks l = rw (not_zero max l, last_keys) refl

-- What is shown are the notifications of the last keys in the state, the last of them on top:
-- all but those that are too many, which come before the others in the state, so that `max` are
-- shown at most, if `max` is not 0.
pub render_newest :
    (max : ℕ) (state : NotificationState)
    → 0 < max
    → (older newest : List String) × (keys state ≡ older ++ newest)
      × (render max state ≡ map (get state) (reverse newest))
      × (length older ≡ length state - max)
      × (length newest ≤ max)
unfolding render
render_newest max state l =
    let n = length (keys state) - max in
    let (older, e, count) = drop_splits n (keys state) (omega arith) in
    let size : length (keys state) ≡ length state = length-map (λ e. e.0) state in
    (
      older,
      drop n (keys state),
      e,
      ap (λ ks. map (get state) (reverse ks)) (last_keys-drop max (keys state) l),
      count ∙ ap (λ m. m - max) size,
      omega (arith, length-drop n (keys state)),
    )
