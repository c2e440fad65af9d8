-- ===== src/Client/Calls/Untouched.antt =====
-- Notifications, dials and the media's slice of the state (src/client/reducers/media.ts).
use model_lib.Prelude.{String, ◌≡◌, List}
use model_lib.Actions.{Action, Async, NotifyType}
use model_lib.Reducers.Media.{media, handle_dial}
use model_lib.Store.{Env, App, dispatch}
use model_lib.Store.Dispatch.{dispatch-media}
use model_lib.Client.Notify.{notify}

module _ (env : Env) where
  -- A notification does not change the media's slice.
  pub notify-media :
      (type : NotifyType) (text : String) (args : List String) (app : App)
      → (notify env type text args app).state.media ≡ app.state.media
  unfolding notify media
  notify-media type text args app = dispatch-media env (Action.notify _) _

  pub dial_state-dispatch :
      (a : Async (Unit {0})) (app : App)
      → (dispatch env (Action.dial a) app).state.media ≡ handle_dial app.state.media a
  unfolding media
  dial_state-dispatch a app = dispatch-media env (Action.dial a) app
