-- ===== src/Store/Dispatch.antt =====
-- What the dispatch of an action does to each slice of the state (src/client/reducers/index.ts).
use model_lib.Prelude.{◌≡◌, ap}
use model_lib.Actions.{Action}
use model_lib.Page.{Page}
use model_lib.Reducers.Notifications.{notifications}
use model_lib.Reducers.Messages.{messages}
use model_lib.Reducers.Media.{media}
use model_lib.Reducers.Nicknames.{nicknames}
use model_lib.Reducers.Peers.{peers}
use model_lib.Reducers.Streams.{streams}
use model_lib.Store.{State, in_turn, Env, slices, App, dispatch}

module _ (env : Env) (a : Action) (app : App) where
  -- The page that the peers' reducer gets: only the notifications' reducer has changed it.
  abbrev pub page_noted : Page
  page_noted = (notifications env.lodash app.state.notifications a app.page).1

  abbrev pub page_shared : Page
  page_shared = (peers env.lodash app.state.peers a page_noted).1

  abbrev in_turn_app : App
  in_turn_app =
      let r = in_turn (slices env) app.state a app.page in record { state = r.0; page = r.1 }

  dispatch-in_turn : dispatch env a app ≡ in_turn_app
  unfolding dispatch
  dispatch-in_turn =
      ap (λ (r : State × Page). let x : App = record { state = r.0; page = r.1 } in x)
        (env.combine_in_turn (slices env) app.state a app.page)

  pub dispatch-peers :
      (dispatch env a app).state.peers ≡ (peers env.lodash app.state.peers a page_noted).0
  unfolding in_turn slices
  dispatch-peers = ap (λ (x : App). x.state.peers) dispatch-in_turn

  pub dispatch-streams :
      (dispatch env a app).state.streams ≡ (streams env.lodash app.state.streams a page_shared).0
  unfolding in_turn slices
  dispatch-streams = ap (λ (x : App). x.state.streams) dispatch-in_turn

  pub dispatch-page :
      (dispatch env a app).page ≡ (streams env.lodash app.state.streams a page_shared).1
  unfolding in_turn slices
  dispatch-page = ap (λ (x : App). x.page) dispatch-in_turn

  pub dispatch-messages :
      (dispatch env a app).state.messages ≡ messages app.state.messages a page_noted.now
  unfolding in_turn slices
  dispatch-messages = ap (λ (x : App). x.state.messages) dispatch-in_turn

  pub dispatch-media : (dispatch env a app).state.media ≡ media app.state.media a
  unfolding in_turn slices
  dispatch-media = ap (λ (x : App). x.state.media) dispatch-in_turn

  pub dispatch-nicknames :
      (dispatch env a app).state.nicknames ≡ nicknames env.lodash env.user_id app.state.nicknames a
  unfolding in_turn slices
  dispatch-nicknames = ap (λ (x : App). x.state.nicknames) dispatch-in_turn

  pub dispatch-notifications :
      (dispatch env a app).state.notifications
      ≡ (notifications env.lodash app.state.notifications a app.page).0
  unfolding in_turn slices
  dispatch-notifications = ap (λ (x : App). x.state.notifications) dispatch-in_turn
