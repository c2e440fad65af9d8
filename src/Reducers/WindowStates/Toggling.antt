-- ===== src/Reducers/WindowStates/Toggling.antt =====
-- Toggling, and the keys of the videos (src/client/reducers/windowStates.ts).
use Prim.Native.String
use mathlib.Core.Bool.{false≢true}
use mathlib.Core.List.{List, [], ◌∷◌}
use text.Mathlib.TextLemmas.{append_cancel_left}
use model_lib.Prelude.{
  String, ◌≡◌, sym, ap, ◌∙◌, subst, Bool, true, false, not, Option, arith, is_some, if◌then◌else◌,
  ◌=?◌, Option-cases, inl, inr, eq_iff,
}
use model_lib.Prelude.Dict.{get, get-without_self, dict_laws}
use model_lib.Prelude.Text.{HasNoUnderscore, split, split-append}
use model_lib.Actions.{MinimizeTogglePayload}
use model_lib.Reducers.WindowStates.{WindowStates, get_stream_key, stream_id_text, minimize_toggle}

-- Whether a video is minimized.
abbrev pub is_minimized : WindowStates → String → Bool
is_minimized state key = is_some (get state key)

-- Toggling a video flips its own key and leaves every other key alone.
pub is_minimized-minimize_toggle :
    (state : WindowStates) (payload : MinimizeTogglePayload) (key : String)
    → is_minimized (minimize_toggle state payload).new key ≡ (
        if get_stream_key payload.user_id payload.stream_id =? key
        then not (is_minimized state key)
        else is_minimized state key)
unfolding minimize_toggle
is_minimized-minimize_toggle state payload key =
    let own = get_stream_key payload.user_id payload.stream_id in
    elim (Option-cases (get state own)) [
      | inl off ↦ rw (off, minimize_toggle) (simp dict_laws (ground (arith, eq_iff own key)))
      | inr (w, on) ↦ rw (on, minimize_toggle) (simp dict_laws (ground (arith, eq_iff own key)))
    ]

-- Toggling a video twice leaves every video as it was.
pub minimize_toggle_twice :
    (state : WindowStates) (payload : MinimizeTogglePayload) (key : String)
    → is_minimized (minimize_toggle (minimize_toggle state payload).new payload).new key
      ≡ is_minimized state key
minimize_toggle_twice state payload key =
    let once = (minimize_toggle state payload).new in
    ground (
      arith,
      is_minimized-minimize_toggle once payload key,
      is_minimized-minimize_toggle state payload key,
    )

-- Toggling a video that is minimized takes its key out of the state object that the reducer was
-- given.
pub minimize_toggle_mutates :
    (state : WindowStates) (payload : MinimizeTogglePayload)
    → is_minimized state (get_stream_key payload.user_id payload.stream_id) ≡ true
    → is_minimized
        (minimize_toggle state payload).old
        (get_stream_key payload.user_id payload.stream_id)
      ≡ false
unfolding minimize_toggle
minimize_toggle_mutates state payload h =
    let own = get_stream_key payload.user_id payload.stream_id in
    elim (Option-cases (get state own)) [
      | inl off ↦ absurd (false≢true (sym (ap is_some off) ∙ h))
      | inr (w, on) ↦ rw (on, minimize_toggle) (ap is_some (get-without_self state own))
    ]

-- The user in a key, if the user's id has no underscore.
head_or_nil : List String → String
head_or_nil [] = ""
head_or_nil (s ∷ _) = s

user_of_key :
    (user_id : String) (stream_id : Option String)
    → HasNoUnderscore user_id
    → head_or_nil (split (get_stream_key user_id stream_id)) ≡ user_id
unfolding get_stream_key head_or_nil
user_of_key user_id stream_id h = ap head_or_nil (split-append user_id (stream_id_text stream_id) h)

-- Videos of users whose ids have no underscore have one key only if the users are the same and
-- the streams' ids read the same.
pub get_stream_key_injective :
    (u v : String) (s t : Option String)
    → HasNoUnderscore u
    → HasNoUnderscore v
    → get_stream_key u s ≡ get_stream_key v t
    → (u ≡ v) × (stream_id_text s ≡ stream_id_text t)
unfolding get_stream_key
get_stream_key_injective u v s t hu hv e =
    let same : u ≡ v =
      sym (user_of_key u s hu) ∙ ap (λ k. head_or_nil (split k)) e ∙ user_of_key v t hv in
    (
      same,
      append_cancel_left "_" _ _ (
          append_cancel_left v _ _ (
            subst (λ w. String.◌++◌ w (String.◌++◌ "_" (stream_id_text s)) ≡ get_stream_key v t)
              same e)),
    )
