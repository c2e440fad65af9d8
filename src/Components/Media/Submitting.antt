-- ===== src/Components/Media/Submitting.antt =====
-- src/client/components/Media.tsx, handleSubmit: the local stream is asked for, and then the call is
-- dialled, with what each of the two promises does when it ends.
pub mod Dialled
pub mod Twice
use Prim.Native.String
use model_lib.Prelude.{
  ℕ, zero, suc, String, Option, none, some, List, [], ◌∷◌, ◌++◌, ◌=?◌, if◌then◌else◌, for_each,
}
use model_lib.Actions.{Async, pending, resolved, rejected, Error, NotifyType, MediaStream}
use model_lib.Store.{Env, App}
use model_lib.Client.Notify.{notify}
use model_lib.Client.Capture.{Outcome, done, failed, ask_for_stream, media_stream_ended}
use model_lib.Client.Calls.{Session, Event, step, handle_event}

-- The session, localStorage.nickname, and the nicknames of the submits that wait for the local stream,
-- the oldest first.
pub record Form : Type 0 where
  pub session : Session
  pub stored : Option String
  pub asking : List String

-- What happens: a submit, the end of the request for the stream of one of the submits that wait (with
-- what socket.emit throws in the dial that follows, if it does), or something else in the session.
pub data FormEvent : Type 0 where
  submitted : (nickname : String) → FormEvent
  stream_ended : ℕ → Outcome MediaStream → Option Error → FormEvent
  other : Event → FormEvent

-- The text of an error.
abbrev pub error_text : Error → String
error_text e =
    if e.message =? ""
    then e.name
    else if e.name =? ""
    then e.message
    else String.◌++◌ e.name (String.◌++◌ ": " e.message)

-- The submit at this place among those that wait, and the others.
abbrev pub waiting_at : ℕ → List String → Option String
waiting_at k [] = none
waiting_at zero (n ∷ ns) = some n
waiting_at (suc k) (n ∷ ns) = waiting_at k ns

abbrev pub others : ℕ → List String → List String
others k [] = []
others zero (n ∷ ns) = ns
others (suc k) (n ∷ ns) = n ∷ others k ns

module _ (env : Env) where
  -- catch (err) of `await props.dial(…)`
  unfoldable pub log_dial : Async (Unit {0}) → App → App
  log_dial pending app = app
  log_dial (resolved _) app = app
  log_dial (rejected e) app =
      notify env NotifyType.error "Error dialling: {0}" (error_text e ∷ []) app

  -- catch (err) of `await props.getMediaStream(…)`, and what follows up to the dial
  unfoldable pub log_stream : Outcome MediaStream → App → App
  log_stream (done stream) app = app
  log_stream (failed e) app =
      notify env NotifyType.error "Error getting media stream: {0}" (error_text e ∷ []) app

  unfoldable pub before_dial : Outcome MediaStream → App → App
  unfolding log_stream
  before_dial outcome app =
      notify env NotifyType.info "Dialling..." []
        (log_stream outcome (media_stream_ended env outcome app))

module _ (env : Env) (call_id : String) where
  -- An event of the session, with what handleSubmit does when a dial has ended.
  unfoldable pub session_step : Event → Session → Session
  session_step event s =
      let handled = handle_event env call_id event s in
      let reacted = step env call_id event s in
      record reacted { app = for_each (log_dial env) handled.reactions reacted.app }

  unfoldable pub dial_after : Outcome MediaStream → Option Error → String → Session → Session
  unfolding session_step
  dial_after outcome thrown nickname s =
      session_step (Event.dial_called nickname thrown)
        (record s { app = before_dial env outcome s.app })

  unfoldable pub form_step : FormEvent → Form → Form
  unfolding session_step
  form_step (submitted nickname) f = record {
    session = record f.session { app = ask_for_stream env f.session.app };
    stored = some nickname;
    asking = f.asking ++ nickname ∷ [];
  }
  form_step (stream_ended k outcome thrown) f = elim (waiting_at k f.asking) [
    | none ↦ f
    | some nickname ↦ record f {
      session = dial_after outcome thrown nickname f.session;
      asking = others k f.asking;
    }
  ]
  form_step (other event) f = record f { session = session_step event f.session }

  abbrev pub run_form : List FormEvent → Form → Form
  run_form events f = for_each form_step events f
