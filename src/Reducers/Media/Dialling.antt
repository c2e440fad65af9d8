-- ===== src/Reducers/Media/Dialling.antt =====
-- The dial state and the other flags as the history of actions decides them
-- (src/client/reducers/media.ts, and mapStateToProps of src/client/components/Media.tsx).
use model_lib.Prelude.{
  ◌≡◌, refl, sym, ap, ◌∙◌, ◌⊎◌, inl, inr, Bool, true, false, not, ◌&&◌, Option, none, some, List,
  [], ◌∷◌, ◌++◌, arith, All, Option-cases,
}
use model_lib.Actions.{Action, pending, resolved, rejected}
use model_lib.Reducers.Media.{
  MediaState, DialState, hung_up, dialling, in_call, default_state, media, join_enabled, is_hung_up,
}

-- The state after a history of actions, the oldest first.
abbrev pub run_media : MediaState → List Action → MediaState
run_media state [] = state
run_media state (a ∷ rest) = run_media (media state a) rest

-- What an action says about the dial state, if anything.
abbrev pub dial_state_set : Action → Option DialState
dial_state_set (Action.dial pending) = some dialling
dial_state_set (Action.dial (resolved _)) = some in_call
dial_state_set (Action.dial (rejected _)) = some hung_up
dial_state_set Action.hang_up = some hung_up
dial_state_set _ = none

-- The same for the connection flag and for the loading flag.
abbrev pub connected_set : Action → Option Bool
connected_set Action.socket_connected = some true
connected_set Action.socket_disconnected = some false
connected_set _ = none

abbrev pub loading_set : Action → Option Bool
loading_set (Action.media_enumerate pending) = some true
loading_set (Action.media_enumerate (resolved _)) = some false
loading_set (Action.media_enumerate (rejected _)) = some false
loading_set _ = none

abbrev pub or_old {ℓ} : {A : Type ℓ} → Option A → A → A
or_old none old = old
or_old (some x) old = x

-- The last value that a history sets.
abbrev pub last_set {ℓ} : {A : Type ℓ} → (Action → Option A) → A → List Action → A
last_set f start [] = start
last_set f start (a ∷ rest) = last_set f (or_old (f a) start) rest

media-dial_state :
    (state : MediaState) (a : Action)
    → (media state a).dial_state ≡ or_old (dial_state_set a) state.dial_state
unfolding media
media-dial_state state a = ground arith

media-socket_connected :
    (state : MediaState) (a : Action)
    → (media state a).socket_connected ≡ or_old (connected_set a) state.socket_connected
unfolding media
media-socket_connected state a = ground arith

media-loading :
    (state : MediaState) (a : Action)
    → (media state a).loading ≡ or_old (loading_set a) state.loading
unfolding media
media-loading state a = ground arith

-- A field that each action sets or leaves is the last value that the history sets.
run_media-field {ℓ} :
    {A : Type ℓ} (field : MediaState → A) (f : Action → Option A)
    → ((state : MediaState) (a : Action) → field (media state a) ≡ or_old (f a) (field state))
    → (state : MediaState) (history : List Action)
    → field (run_media state history) ≡ last_set f (field state) history
run_media-field field f step state [] = refl
run_media-field field f step state (a ∷ rest) =
    run_media-field field f step (media state a) rest ∙ ap (λ x. last_set f x rest) (step state a)

-- After any history of actions from the default state, the form to join a call is enabled
-- exactly when the last action about the dial state left it hung up, the last one about the
-- socket connected it, and the last one about the devices did not start to load them.
pub join_enabled-run_media :
    (history : List Action)
    → join_enabled (run_media default_state history) ≡ (
        is_hung_up (last_set dial_state_set hung_up history)
        && last_set connected_set false history
        && not (last_set loading_set false history))
join_enabled-run_media history = cc (
  run_media-field (λ s. s.dial_state) dial_state_set media-dial_state default_state history,
  run_media-field (λ s. s.socket_connected) connected_set media-socket_connected default_state
      history,
  run_media-field (λ s. s.loading) loading_set media-loading default_state history,
)

-- Where the last value of a history comes from.
pub data Origin {ℓ} {A : Type ℓ} (f : Action → Option A) (x : A) (history : List Action)
    : Type ℓ where
  here :
      (before after : List Action) (a : Action)
      → history ≡ before ++ a ∷ after
      → f a ≡ some x
      → All (λ b. f b ≡ none) after
      → Origin f x history

Origin-cons {ℓ} :
    {A : Type ℓ} (f : Action → Option A) (x : A) (a : Action) (rest : List Action)
    → Origin f x rest
    → Origin f x (a ∷ rest)
Origin-cons f x a rest (here before after b e s h) =
    here (a ∷ before) after b (ap (λ l. a ∷ l) e) s h

last_set-Origin {ℓ} :
    {A : Type ℓ} (f : Action → Option A) (start x : A) (history : List Action)
    → last_set f start history ≡ x
    → ((start ≡ x) × All (λ b. f b ≡ none) history) ⊎ Origin f x history
last_set-Origin f start x [] e = inl (e, tt)
last_set-Origin f start x (a ∷ rest) e = elim (Option-cases (f a)) [
  | inl missing ↦ elim (last_set-Origin f start x rest (rw missing at e)) [
    | inl (same, quiet) ↦ inl (same, (missing, quiet))
    | inr o ↦ inr (Origin-cons f x a rest o)
  ]
  | inr (y, s) ↦ elim (last_set-Origin f y x rest (rw s at e)) [
    | inl (same, quiet) ↦ inr (here [] rest a refl (s ∙ ap some same) quiet)
    | inr o ↦ inr (Origin-cons f x a rest o)
  ]
]

-- If a history of actions from the default state ends in a call, then one of its actions put the
-- client in a call, and no later action is about the dial state.
pub in_call_only_after_dial :
    (history : List Action)
    → (run_media default_state history).dial_state ≡ in_call
    → Origin dial_state_set in_call history
in_call_only_after_dial history e =
    elim (last_set-Origin dial_state_set hung_up in_call history (
      sym
        (run_media-field (λ s. s.dial_state) dial_state_set media-dial_state default_state history)
      ∙ e)) [ inl (same, quiet) ↦ absurd (grind arith) | inr o ↦ o ]
