-- ===== src/Components/Html/Queries.antt =====
-- What an element and those below it hold, in the order of the document.
use model_lib.Prelude.{
  String, ◌≡◌, refl, Bool, true, false, ◌&&◌, ◌||◌, List, [], ◌∷◌, ◌++◌, any, map, arith,
}
use mathlib.Core.Bool.{or_assoc}
use model_lib.Components.Html.{
  Handler, Attribute, on, class, has, flag, Html, text, element, Forest, end, node, nodes, when,
}

abbrev own_offers : (Handler → Bool) → List Attribute → Bool
own_offers p [] = false
own_offers p (on event hs ∷ attributes) = any p hs || own_offers p attributes
own_offers p (class names ∷ attributes) = own_offers p attributes
own_offers p (has name value ∷ attributes) = own_offers p attributes
own_offers p (flag name value ∷ attributes) = own_offers p attributes

-- Whether one of the elements has a handler of a kind.
unfoldable mutual
  pub offers : (Handler → Bool) → Html → Bool
  offers p (text s) = false
  offers p (element tag attributes children) = own_offers p attributes || offers_below p children

  pub offers_below : (Handler → Bool) → Forest → Bool
  offers_below p end = false
  offers_below p (node h hs) = offers p h || offers_below p hs

-- The texts that are shown.
unfoldable mutual
  pub texts : Html → List String
  texts (text s) = s ∷ []
  texts (element tag attributes children) = texts_below children

  pub texts_below : Forest → List String
  texts_below end = []
  texts_below (node h hs) = texts h ++ texts_below hs

module _ (p : Handler → Bool) where
  pub offers_below-append :
      (xs ys : List Html)
      → offers_below p (nodes (xs ++ ys)) ≡ (offers_below p (nodes xs) || offers_below p (nodes ys))
  unfolding offers_below
  offers_below-append [] ys = refl
  offers_below-append (x ∷ xs) ys = cc (
    offers_below-append xs ys,
    or_assoc (offers p x) (offers_below p (nodes xs)) (offers_below p (nodes ys)),
  )

  pub offers_below-when :
      (b : Bool) (h : Html) → offers_below p (nodes (when b h)) ≡ (b && offers p h)
  unfolding offers_below
  offers_below-when true h = ground arith
  offers_below-when false h = refl

  -- Elements none of which has such a handler.
  pub offers_below-map {ℓ} :
      {A : Type ℓ} (f : A → Html) (xs : List A)
      → ((x : A) → offers p (f x) ≡ false)
      → offers_below p (nodes (map f xs)) ≡ false
  unfolding offers_below
  offers_below-map f [] none_has = refl
  offers_below-map f (x ∷ xs) none_has = cc (none_has x, offers_below-map f xs none_has)
