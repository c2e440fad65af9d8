-- ===== src/Components/Application/HangingUp.antt =====
-- The button that hangs up (onHangup in src/client/components/App.tsx).
use model_lib.Prelude.{String, ◌≡◌, refl, ap, ◌∙◌, true, false, none, [], for_each}
use model_lib.Actions.{Action}
use model_lib.Reducers.Media.{MediaState, media, hung_up, is_hung_up}
use model_lib.Components.Toolbar.View.{is_in_call}
use model_lib.Reducers.Peers.{peers}
use model_lib.Reducers.Streams.{StreamWithUrl, streams}
use model_lib.Store.{Env, App}
use model_lib.Store.Dispatch.{dispatch-media, dispatch-peers, dispatch-streams}
use model_lib.Client.Calls.{Session, hang_up, hang_up_call, remove_event_listeners}
use model_lib.Components.Html.Queries.{offers}
use model_lib.Components.Media.{ConstraintJson}
use model_lib.Components.Application.{
  PageState, get_local_streams, remove_local, on_hangup, app_html,
}
use model_lib.Components.Application.Offers.{Tool, is_tool, is_submit, app_html-offers}

hang_up-clears :
    (env : Env) (app : App)
    → ((hang_up env app).state.media.dial_state ≡ hung_up)
      × ((hang_up env app).state.streams ≡ [])
      × ((hang_up env app).state.peers ≡ [])
unfolding hang_up media peers streams
hang_up-clears env app = (
  ap (λ (m : MediaState). m.dial_state) (dispatch-media env Action.hang_up _),
  dispatch-streams env Action.hang_up _,
  dispatch-peers env Action.hang_up _,
)

module _ (env : Env) (call_id : String) where
  -- A click on the button that hangs up, where the socket does not throw, leaves no stream, no
  -- connection and no listener of the server's lists of users, signals and hang-ups, and the
  -- page then has the form to join a call and none of the toolbar's buttons that show the chat,
  -- send a file, share the desktop and hang up.
  pub on_hangup-offers :
      (json : ConstraintJson) (page : PageState) (s : Session)
      → let after = on_hangup env call_id none s in
        let html = app_html env json after.app.state page in
        (after.app.state.streams ≡ [])
        × (after.app.state.peers ≡ [])
        × (after.on_users ≡ [])
        × (after.on_signal ≡ [])
        × (after.on_hang_up ≡ [])
        × (offers is_submit html ≡ true)
        × ((tool : Tool) → offers (is_tool tool) html ≡ false)
  unfolding on_hangup hang_up_call remove_event_listeners
  on_hangup-offers json page s =
      let after = on_hangup env call_id none s in
      let local_streams = get_local_streams env.lodash s.app.state.streams in
      let removed =
        for_each (remove_local env) (env.lodash.entries StreamWithUrl local_streams) s.app in
      let (out, no_streams, no_peers) = hang_up-clears env removed in
      let (tools, form) = app_html-offers env json after.app.state page in
      (
        no_streams,
        no_peers,
        refl,
        refl,
        refl,
        form ∙ ap is_hung_up out,
        λ tool. tools tool ∙ ap is_in_call out,
      )
