-- ===== src/Components/Media/Submitting/Dialled.antt =====
-- A submit dials (handleSubmit in src/client/components/Media.tsx).
use model_lib.Prelude.{some, suc, String, ◌≡◌, refl, ap, ◌∙◌, Option, none, List, [], ◌∷◌, ◌++◌}
use model_lib.Actions.{Action, pending, MediaStream}
use model_lib.Page.{Call, SocketMessage}
use model_lib.Reducers.Media.{MediaState, dialling, handle_dial}
use model_lib.Reducers.Peers.{peers}
use model_lib.Reducers.Streams.{streams}
use model_lib.Reducers.Notifications.{notifications}
use model_lib.Store.{Env, App, dispatch}
use model_lib.Store.Dispatch.{dispatch-page}
use model_lib.Client.Capture.{Outcome}
use model_lib.Client.Calls.{
  Session, Event, handler, resolves, settle, remove_event_listeners, react, listen, call, dial,
  handle_event, step,
}
use model_lib.Client.Calls.Untouched.{dial_state-dispatch}
use model_lib.Components.Media.Submitting.{
  submitted, stream_ended, session_step, before_dial, dial_after, form_step, run_form,
}

module _ (env : Env) (call_id : String) where
  -- The events of a session whose reactions are over.
  dialled_app :
      (nickname : String) (s : Session)
      → s.reactions ≡ []
      → let after = session_step env call_id (Event.dial_called nickname none) s in
        let bare = call env call_id nickname none s in
        (after.app ≡ dispatch env (Action.dial pending) bare.app)
        × (after.dials_made ≡ suc s.dials_made)
        × (after.on_users ≡ handler ∷ resolves s.dials_made ∷ [])
  unfolding session_step step handle_event dial call listen remove_event_listeners react settle
  dialled_app nickname s quiet = rw quiet (refl, refl, refl)

  dial-calls : (app : App) → (dispatch env (Action.dial pending) app).page.calls ≡ app.page.calls
  unfolding streams peers notifications
  dial-calls app = ap (λ p. p.calls) (dispatch-page env (Action.dial pending) app)

  -- However the request for the local stream ends, a submit with no other one waiting makes one
  -- dial more: the client is dialling, its last message is that it is ready, under the nickname
  -- of the submit, which localStorage keeps, and the dial waits for the server's list of users;
  -- the session must have no reaction left to run, and socket.emit must not throw.
  pub submit_dials :
      (nickname : String) (outcome : Outcome MediaStream) (stored : Option String) (s : Session)
      → s.reactions ≡ []
      → let after =
          run_form env call_id
            (submitted nickname ∷ stream_ended 0 outcome none ∷ [])
            (record { session = s; stored = stored; asking = [] }) in
        (after.session.dials_made ≡ suc s.dials_made)
        × (after.session.app.state.media.dial_state ≡ dialling)
        × (after.session.on_users ≡ handler ∷ resolves s.dials_made ∷ [])
        × (after.stored ≡ some nickname)
        × ((earlier : List Call) × (after.session.app.page.calls
              ≡ earlier
                ++ Call.socket_emit (SocketMessage.ready call_id nickname env.user_id) ∷ []))
  unfolding form_step dial_after call listen remove_event_listeners handle_dial
  submit_dials nickname outcome stored s quiet =
      let asked =
        (form_step env call_id (submitted nickname)
          (record { session = s; stored = stored; asking = [] })).session in
      let s' = record asked { app = before_dial env outcome asked.app } in
      let (app, made, waits) = dialled_app nickname s' quiet in
      let called = call env call_id nickname none s' in
      (
        made,
        ap (λ (x : App). x.state.media.dial_state) app
            ∙ ap (λ (m : MediaState). m.dial_state) (dial_state-dispatch env pending called.app),
        waits,
        refl,
        (s'.app.page.calls, ap (λ (x : App). x.page.calls) app ∙ dial-calls called.app),
      )
