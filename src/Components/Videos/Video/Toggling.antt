-- ===== src/Components/Videos/Video/Toggling.antt =====
-- The item of a video's menu that minimizes it (handleMinimize in src/client/components/Video.tsx,
-- with src/client/reducers/windowStates.ts).
use model_lib.Prelude.{
  String, ◌≡◌, refl, ap, ◌∙◌, not, Option, none, some, is_some, if◌then◌else◌, ◌=?◌,
}
use model_lib.Prelude.Dict.{get}
use model_lib.Actions.{Action}
use model_lib.Reducers.Streams.{StreamWithUrl}
use model_lib.Reducers.WindowStates.{
  WindowState, minimized, WindowStates, get_stream_key, window_states,
}
use model_lib.Reducers.WindowStates.Toggling.{is_minimized-minimize_toggle}
use model_lib.Components.Videos.{StreamProps, is_small, empty_props, stream_props}
use model_lib.Components.Videos.Video.{handle_minimize}

-- The video of a user, with a stream or without one.
abbrev pub props_of : WindowStates → String → Option StreamWithUrl → StreamProps
props_of ws user_id none = empty_props ws user_id
props_of ws user_id (some s) = stream_props ws user_id s

small_is_some : (o : Option WindowState) → is_small o ≡ is_some o
small_is_some none = refl
small_is_some (some minimized) = refl

props_of-small :
    (ws : WindowStates) (user_id : String) (o : Option StreamWithUrl)
    → is_small (props_of ws user_id o).window_state ≡ is_some (get ws (props_of ws user_id o).key)
unfolding empty_props stream_props
props_of-small ws user_id none = small_is_some _
props_of-small ws user_id (some s) = small_is_some _

-- The key does not depend on what is minimized.
props_of-key :
    (ws ws' : WindowStates) (user_id : String) (o : Option StreamWithUrl)
    → (props_of ws user_id o).key ≡ (props_of ws' user_id o).key
unfolding empty_props stream_props
props_of-key ws ws' user_id none = refl
props_of-key ws ws' user_id (some s) = refl

minimize-key :
    (ws : WindowStates) (user_id : String) (o : Option StreamWithUrl)
    → let payload = handle_minimize (props_of ws user_id o) in
      get_stream_key payload.user_id payload.stream_id ≡ (props_of ws user_id o).key
unfolding handle_minimize empty_props stream_props
minimize-key ws user_id none = refl
minimize-key ws user_id (some s) = refl

-- A click on "Toggle Minimize" in the menu of a video moves the videos with this one's key to
-- the other place, between the grid and the minimized ones, and leaves every other video in its
-- place.
pub window_states-handle_minimize :
    (ws : WindowStates) (u v : String) (s t : Option StreamWithUrl)
    → let clicked = props_of ws u s in
      let ws' = (window_states ws (Action.minimize_toggle (handle_minimize clicked))).new in
      let before = props_of ws v t in
      is_small (props_of ws' v t).window_state ≡ (
        if clicked.key =? before.key
        then not (is_small before.window_state)
        else is_small before.window_state)
unfolding window_states
window_states-handle_minimize ws u v s t =
    let payload = handle_minimize (props_of ws u s) in
    let ws' = (window_states ws (Action.minimize_toggle payload)).new in
    props_of-small ws' v t
    ∙ ap (λ k. is_some (get ws' k)) (props_of-key ws' ws v t)
    ∙ is_minimized-minimize_toggle ws payload (props_of ws v t).key
    ∙ cc (minimize-key ws u s, props_of-small ws v t)
