-- ===== src/Reducers/WindowStates.antt =====
-- src/client/reducers/windowStates.ts: which videos are minimized. A key that is in the
-- dictionary is minimized. `unminimize` deletes the key from the state object that it was given,
-- so a step also returns what has become of that object.
pub mod Toggling
use Prim.Native.String
use model_lib.Prelude.{String, Option, none, some}
use model_lib.Prelude.Dict.{Dict, get, put, without}
use model_lib.Actions
use model_lib.Actions.{Action, MinimizeTogglePayload}

pub data WindowState : Type 0 where
  minimized : WindowState

abbrev pub WindowStates : Type 0
WindowStates = Dict WindowState

-- `'' + streamId`: an absent id reads "undefined".
abbrev pub stream_id_text : Option String → String
stream_id_text none = "undefined"
stream_id_text (some id) = id

unfoldable pub get_stream_key : String → Option String → String
get_stream_key user_id stream_id = String.◌++◌ user_id (String.◌++◌ "_" (stream_id_text stream_id))

-- The old state object as it is afterwards, and the new state.
pub record Step : Type 0 where
  pub old : WindowStates
  pub new : WindowStates

unfoldable pub unminimize : WindowStates → String → Step
unminimize state key = record { old = without state key; new = without state key }

unfoldable pub minimize : WindowStates → String → Step
minimize state key = record { old = state; new = put state key minimized }

unfoldable pub minimize_toggle : WindowStates → MinimizeTogglePayload → Step
unfolding unminimize minimize
minimize_toggle state payload =
    let key = get_stream_key payload.user_id payload.stream_id in
    let off : Step = unminimize state key in
    let on : Step = minimize state key in elim (get state key) [ some _ ↦ off | none ↦ on ]

-- the default export
unfoldable pub window_states : WindowStates → Action → Step
window_states state (Action.minimize_toggle payload) = minimize_toggle state payload
window_states state _ = record { old = state; new = state }
