-- ===== src/System/Moving.antt =====
-- What the form, the browser, the user and the button that hangs up do, as moves of the client
-- (src/client/components/Media.tsx, src/client/components/App.tsx).
use model_lib.Prelude.{String, Option, none, some, [], ◌∷◌, for_each}
use model_lib.Actions.{Action, Async, pending, resolved, rejected, Error, NotifyType, MediaStream}
use model_lib.Page.{fire_timeout}
use model_lib.Page.Turning.{IsHeard, fire_timeout-Turns}
use model_lib.Reducers.Streams.{StreamWithUrl}
use model_lib.Store.{Env, App}
use model_lib.Client.Capture.{Outcome, done, failed, media_stream_ended}
use model_lib.Client.Calls.{
  Session, Event, handle_event, step, hang_up_call, remove_event_listeners,
}
use model_lib.Client.Events.{
  ClientEvent, peer_fires, track_mutes, track_unmutes, signal_comes, users_come, hang_up_comes,
  user_hangs_up, timeout_fires, user_sends, acts, after_event,
}
use model_lib.Client.Moves.{
  IsUsual, Moves, stays, then_Moves, act_Moves, note_Moves, turn_Moves, loop-Moves,
}
use model_lib.Client.Moves.Handlers.{peer_event-Moves}
use model_lib.Client.Moves.Server.{
  fire_mute-Moves, fire_unmute-Moves, send_message-Moves, hang_up-Moves, IsFair, step-Moves,
}
use model_lib.Components.Media.Submitting.{
  error_text, log_dial, log_stream, before_dial, session_step, dial_after,
}
use model_lib.Components.Application.{get_local_streams, remove_local, on_hangup}
use model_lib.System.{IsOfElement, IsOfBrowser}

module _ (env : Env) where
  log_dial-Moves : (a : Async (Unit {0})) (app : App) → Moves env app (log_dial env a app)
  unfolding log_dial
  log_dial-Moves pending app = stays app
  log_dial-Moves (resolved x) app = stays app
  log_dial-Moves (rejected e) app =
      note_Moves env NotifyType.error "Error dialling: {0}" (error_text e ∷ []) app

  log_stream-Moves :
      (outcome : Outcome MediaStream) (app : App) → Moves env app (log_stream env outcome app)
  unfolding log_stream
  log_stream-Moves (done stream) app = stays app
  log_stream-Moves (failed e) app =
      note_Moves env NotifyType.error "Error getting media stream: {0}" (error_text e ∷ []) app

  before_dial-Moves :
      (outcome : Outcome MediaStream) (app : App) → Moves env app (before_dial env outcome app)
  unfolding before_dial media_stream_ended
  before_dial-Moves outcome app =
      let ended = media_stream_ended env outcome app in
      let logged = log_stream env outcome ended in
      then_Moves env app ended _ (act_Moves env (Action.media_stream _) app tt) (
        then_Moves env ended logged _ (log_stream-Moves outcome ended)
          (note_Moves env NotifyType.info "Dialling..." [] logged))

  element-IsUsual : (a : Action) → IsOfElement a → IsUsual a
  element-IsUsual (Action.notify_dismiss id) h = tt
  element-IsUsual (Action.media_enumerate a) h = tt
  element-IsUsual (Action.media_stream a) h = tt
  element-IsUsual (Action.media_play a) h = tt
  element-IsUsual (Action.media_video_constraint_set c) h = tt
  element-IsUsual (Action.media_audio_constraint_set c) h = tt
  element-IsUsual (Action.stream_remove p) h = tt
  element-IsUsual (Action.minimize_toggle p) h = tt
  element-IsUsual _ h = absurd h

  pub after_event-Moves :
      (e : ClientEvent) (app : App)
      → IsOfBrowser e
      → IsHeard app.page
      → Moves env app (after_event env e app)
  unfolding after_event
  after_event-Moves (peer_fires peer e) app of_browser h = peer_event-Moves env peer e app h
  after_event-Moves (track_mutes t) app of_browser h = fire_mute-Moves env t app
  after_event-Moves (track_unmutes t) app of_browser h = fire_unmute-Moves env t app
  after_event-Moves (signal_comes user_id data') app of_browser h = absurd of_browser
  after_event-Moves (users_come stream users) app of_browser h = absurd of_browser
  after_event-Moves (hang_up_comes user_id) app of_browser h = absurd of_browser
  after_event-Moves user_hangs_up app of_browser h = absurd of_browser
  after_event-Moves timeout_fires app of_browser h =
      turn_Moves env fire_timeout app (fire_timeout-Turns app.page)
  after_event-Moves (user_sends m) app of_browser h = send_message-Moves env m app
  after_event-Moves (acts a) app of_browser h = act_Moves env a app (element-IsUsual a of_browser)

  -- The local streams go.
  abbrev removed : App → App
  removed app =
      for_each (remove_local env)
        (env.lodash.entries StreamWithUrl (get_local_streams env.lodash app.state.streams)) app

  removing-Moves : (app : App) → Moves env app (removed app)
  unfolding remove_local
  removing-Moves app =
      loop-Moves env (remove_local env) (λ e app. act_Moves env (Action.stream_remove _) app tt)
        (env.lodash.entries StreamWithUrl (get_local_streams env.lodash app.state.streams)) app

module _ (env : Env) (call_id : String) where
  pub session_step-Moves :
      (event : Event) (s : Session)
      → IsFair event
      → Moves env s.app (session_step env call_id event s).app
  unfolding session_step
  session_step-Moves event s fair =
      then_Moves env s.app (step env call_id event s).app _ (step-Moves env call_id event s fair) (
        loop-Moves env (log_dial env) (log_dial-Moves env)
          (handle_event env call_id event s).reactions (step env call_id event s).app)

  pub dial_after-Moves :
      (outcome : Outcome MediaStream) (thrown : Option Error) (nickname : String) (s : Session)
      → Moves env s.app (dial_after env call_id outcome thrown nickname s).app
  unfolding dial_after
  dial_after-Moves outcome thrown nickname s =
      then_Moves env s.app (before_dial env outcome s.app) _ (before_dial-Moves env outcome s.app) (
        session_step-Moves (Event.dial_called nickname thrown)
          (record s { app = before_dial env outcome s.app }) tt)

  pub on_hangup-Moves :
      (thrown : Option Error) (s : Session) → Moves env s.app (on_hangup env call_id thrown s).app
  unfolding on_hangup hang_up_call remove_event_listeners
  on_hangup-Moves (some e) s = removing-Moves env s.app
  on_hangup-Moves none s =
      then_Moves env s.app (removed env s.app) _ (removing-Moves env s.app)
        (hang_up-Moves env (removed env s.app))
