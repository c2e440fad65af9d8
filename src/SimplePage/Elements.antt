-- ===== src/SimplePage/Elements.antt =====
-- The elements of tracks (src/client/index-simple.tsx).
use model_lib.Prelude.{
  ℕ, String, ◌≡◌, refl, sym, subst, ap, ◌∙◌, true, false, not, some, List, [], ◌∷◌, ◌++◌, ◌==◌, any,
  filter, arith,
}
use model_lib.Actions.{Track}
use model_lib.SimplePage.{
  SimplePage, tracked, muted, unmuted, went_on, threw, remove_child, show_track, page_event,
  page_of,
}

any-last : (n : ℕ) (ns : List ℕ) → any (λ e. e == n) (ns ++ n ∷ []) ≡ true
any-last n [] = ground arith
any-last n (m ∷ ns) = ground (arith, any-last n ns)

any-filtered : (n : ℕ) (ns : List ℕ) → any (λ e. e == n) (filter (λ e. not (e == n)) ns) ≡ false
any-filtered n [] = refl
any-filtered n (m ∷ ns) = ground (arith, any-filtered n ns)

module _ (user_id call_id : String) where
  mute_shown :
      (track : Track) (el : ℕ) (page : SimplePage)
      → page.on_mute track ≡ some el
      → any (λ e. e == el) page.container ≡ true
      → page_event user_id call_id (muted track) page
        ≡ went_on (record page { container = filter (λ e. not (e == el)) page.container })
  unfolding page_event remove_child
  mute_shown track el page handled there = rw (handled, there, page_event, remove_child) refl

  mute_hidden :
      (track : Track) (el : ℕ) (page : SimplePage)
      → page.on_mute track ≡ some el
      → any (λ e. e == el) page.container ≡ false
      → page_event user_id call_id (muted track) page ≡ threw page
  unfolding page_event remove_child
  mute_hidden track el page handled gone = rw (handled, gone, page_event, remove_child) refl

  -- The element of a track that has come goes when the track is muted, and unmuting the track
  -- does not bring it back: if the track is muted again next, or is unmuted and then muted
  -- again, the listener throws.
  pub muted_twice :
      (track : Track) (page : SimplePage)
      → let shown = page_of (page_event user_id call_id (tracked track) page) in
        let hidden = page_of (page_event user_id call_id (muted track) shown) in
        let back = page_of (page_event user_id call_id (unmuted track) hidden) in
        (page_event user_id call_id (muted track) shown ≡ went_on hidden)
        × (any (λ e. e == page.elements_made) back.container ≡ false)
        × (page_event user_id call_id (muted track) hidden ≡ threw hidden)
        × (page_event user_id call_id (muted track) back ≡ threw back)
  unfolding page_event show_track
  muted_twice track page =
      let el = page.elements_made in
      let shown = page_of (page_event user_id call_id (tracked track) page) in
      let gone = record shown { container = filter (λ e. not (e == el)) shown.container } in
      let handled : shown.on_mute track ≡ some el = ground arith in
      let hides = mute_shown track el shown handled (any-last el page.container) in
      let absent = any-filtered el shown.container in
      let throws = mute_hidden track el gone handled absent in
      let (out, again) =
        subst
          (λ q.
            (any (λ e. e == el) q.container ≡ false)
            × (page_event user_id call_id (muted track) q ≡ threw q))
          (sym (ap page_of hides)) (absent, throws) in
      (hides ∙ ap went_on (sym (ap page_of hides)), out, again, again)
