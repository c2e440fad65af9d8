-- ===== src/Components/Toolbar/Muting.antt =====
-- The microphone's button and the tracks that it mutes (src/client/components/Toolbar.tsx).
use model_lib.Prelude.{
  ℕ, zero, suc, ◌≡◌, refl, ◌∙◌, Bool, true, false, not, List, [], ◌∷◌, arith, any, for_each, ◌==◌,
  if◌then◌else◌,
}
use model_lib.Actions.{Track}
use model_lib.Components.Toolbar.{Muted, toggle_track, handle_mic_click}

abbrev pub is_track : List Track → Track → Bool
is_track ts t = any (λ u. u == t) ts

-- getAudioTracks returns no track twice.
abbrev pub AreDistinct : List Track → Type 0
AreDistinct [] = Unit
AreDistinct (t ∷ ts) = (is_track ts t ≡ false) × AreDistinct ts

toggle_all :
    (ts : List Track) (enabled : Track → Bool) (t : Track)
    → AreDistinct ts
    → for_each toggle_track ts enabled t ≡ (if is_track ts t then not (enabled t) else enabled t)
toggle_all [] enabled t d = refl
toggle_all (u ∷ ts) enabled t d = ground (arith, toggle_all ts (toggle_track u enabled) t d.1)

abbrev pub clicks : ℕ → List Track → Muted → Muted
clicks zero ts m = m
clicks (suc n) ts m = clicks n ts (handle_mic_click ts m)

-- Whether the button shows what holds of the track.
abbrev pub shows : Muted → Track → Bool
shows m t = if m.state.mic_muted then not (m.enabled t) else m.enabled t

shows-click :
    (ts : List Track) (m : Muted) (t : Track)
    → AreDistinct ts
    → is_track ts t ≡ true
    → shows (handle_mic_click ts m) t ≡ shows m t
unfolding handle_mic_click
shows-click ts m t d h = ground (arith, toggle_all ts m.enabled t d)

-- If the stream's audio tracks are distinct, no number of clicks on the microphone's button
-- changes whether it shows the truth about one of them: a button that does stays so, and one
-- that shows a live track as muted, as it does for a new stream if the one before was muted,
-- shows it so ever after whenever it is live.
pub shows-clicks :
    (n : ℕ) (ts : List Track) (m : Muted) (t : Track)
    → AreDistinct ts
    → is_track ts t ≡ true
    → shows (clicks n ts m) t ≡ shows m t
shows-clicks zero ts m t d h = refl
shows-clicks (suc n) ts m t d h =
    shows-clicks n ts (handle_mic_click ts m) t d h ∙ shows-click ts m t d h
