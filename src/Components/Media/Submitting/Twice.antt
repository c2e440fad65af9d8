-- ===== src/Components/Media/Submitting/Twice.antt =====
-- The form is submitted again before the first submit has dialled (handleSubmit in
-- src/client/components/Media.tsx).
use model_lib.Prelude.{String, ◌≡◌, refl, ap, ◌∙◌, Option, none, List, [], ◌∷◌, for_each}
use model_lib.Actions.{Action, Async, pending, resolved, rejected, NotifyType, MediaStream}
use model_lib.Reducers.Media.{
  MediaState, in_call, hung_up, media, handle_media_stream, handle_dial, join_enabled,
}
use model_lib.Reducers.Peers.{peers}
use model_lib.Store.{Env, App}
use model_lib.Store.Dispatch.{dispatch-media, dispatch-peers}
use model_lib.Client.Notify.{notify}
use model_lib.Client.Capture.{Outcome, ask_for_stream}
use model_lib.Client.SocketHandler.{Users}
use model_lib.Client.Calls.{Session, Event, step, handle_event, timed_out}
use model_lib.Client.Calls.Handlers.{IsSound}
use model_lib.Client.Calls.Untouched.{notify-media, dial_state-dispatch}
use model_lib.Client.Calls.Outcomes.{onto, stale_timer_lem, dial-peers}
use model_lib.Components.Media.Submitting.{
  Form, submitted, stream_ended, other, error_text, log_dial, session_step, before_dial, dial_after,
  form_step, run_form,
}

module _ (env : Env) where
  log_dial-media :
      (o : Async (Unit {0})) (app : App) → (log_dial env o app).state.media ≡ app.state.media
  unfolding log_dial
  log_dial-media pending app = refl
  log_dial-media (resolved x) app = refl
  log_dial-media (rejected e) app =
      notify-media env NotifyType.error "Error dialling: {0}" (error_text e ∷ []) app

  log_dial-peers :
      (o : Async (Unit {0})) (app : App) → (log_dial env o app).state.peers ≡ app.state.peers
  unfolding log_dial notify peers
  log_dial-peers pending app = refl
  log_dial-peers (resolved x) app = refl
  log_dial-peers (rejected e) app = dispatch-peers env (Action.notify _) _

  log_all-media :
      (os : List (Async (Unit {0}))) (app : App)
      → (for_each (log_dial env) os app).state.media ≡ app.state.media
  log_all-media [] app = refl
  log_all-media (o ∷ os) app = log_all-media os _ ∙ log_dial-media o app

  log_all-peers :
      (os : List (Async (Unit {0}))) (app : App)
      → (for_each (log_dial env) os app).state.peers ≡ app.state.peers
  log_all-peers [] app = refl
  log_all-peers (o ∷ os) app = log_all-peers os _ ∙ log_dial-peers o app

  asking-media : (app : App) → (ask_for_stream env app).state.media ≡ app.state.media
  unfolding ask_for_stream media handle_media_stream
  asking-media app = dispatch-media env (Action.media_stream pending) app

module _ (env : Env) (call_id : String) where
  -- The form can be submitted again while the first submit waits for the local stream. Then two
  -- dials are made, however the requests for the stream end; the server's list of users puts the
  -- client in a call, and the timer of the first dial puts it out of it, with its connections as
  -- they were; the session's listeners and timers must be sound.
  pub submit_twice_hangs_up :
      (first second : String) (o₁ o₂ : Outcome MediaStream) (users : Users) (stored : Option String)
      (s : Session)
      → IsSound s
      → let fresh : Form = record { session = s; stored = stored; asking = [] } in
        let asked = form_step env call_id (submitted first) fresh in
        let answered =
          run_form env call_id
            (submitted second
              ∷ stream_ended 0 o₁ none
              ∷ stream_ended 0 o₂ none
              ∷ other (Event.users_received users)
              ∷ [])
            asked in
        let late = form_step env call_id (other (Event.timer_fired s.dials_made)) answered in
        (join_enabled asked.session.app.state.media ≡ join_enabled s.app.state.media)
        × (answered.session.app.state.media.dial_state ≡ in_call)
        × (late.session.app.state.media.dial_state ≡ hung_up)
        × (late.session.app.state.peers ≡ answered.session.app.state.peers)
  unfolding form_step dial_after session_step handle_dial
  submit_twice_hangs_up first second o₁ o₂ users stored s sound =
      let log : Event → Session → App → App =
        λ event s. for_each (log_dial env) (handle_event env call_id event s).reactions in
      let s₁ =
        onto env call_id
          (λ (a : App). before_dial env o₁ (ask_for_stream env (ask_for_stream env a))) s in
      let g₁ = λ (a : App). before_dial env o₂ (log (Event.dial_called first none) s₁ a) in
      let once = onto env call_id g₁ (step env call_id (Event.dial_called first none) s₁) in
      let g₂ = log (Event.dial_called second none) once in
      let twice = onto env call_id g₂ (step env call_id (Event.dial_called second none) once) in
      let met = step env call_id (Event.users_received users) twice in
      let g₃ = log (Event.users_received users) twice in
      let answered = onto env call_id g₃ met in
      let timer = step env call_id (Event.timer_fired s.dials_made) answered in
      let outcomes =
        (handle_event env call_id (Event.timer_fired s.dials_made) answered).reactions in
      let (meets, late) = stale_timer_lem env call_id first second users g₁ g₂ g₃ s₁ sound in
      (
        ap join_enabled (asking-media env s.app),
        ap (λ (m : MediaState). m.dial_state)
              (log_all-media env
                (handle_event env call_id (Event.users_received users) twice).reactions met.app)
            ∙ meets,
        ap (λ (m : MediaState). m.dial_state) (log_all-media env outcomes timer.app)
            ∙ ap (λ (x : App). x.state.media.dial_state) late
            ∙ ap (λ (m : MediaState). m.dial_state)
                (dial_state-dispatch env (rejected timed_out) answered.app),
        log_all-peers env outcomes timer.app
            ∙ ap (λ (x : App). x.state.peers) late
            ∙ dial-peers env _ answered.app,
      )
