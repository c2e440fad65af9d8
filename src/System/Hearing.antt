-- ===== src/System/Hearing.antt =====
-- What holds of a session that hears the server (init in src/client/actions/CallActions.ts, handleSubmit
-- in src/client/components/Media.tsx).
use model_lib.Prelude.{
  String, ◌≡◌, refl, ap, ◌∙◌, Bool, true, false, Option, none, some, List, [], ◌∷◌, for_each, All,
  Bool-cases, inl, inr, arith, ◌=?◌,
}
use model_lib.Lodash.{IsPlainKey}
use model_lib.Actions.{Action, NotifyType, pending, resolved, rejected}
use model_lib.Page.Turning.{IsOther}
use model_lib.Reducers.Media.{
  MediaState, media, handle_enumerate, handle_media_stream, handle_play, handle_dial,
}
use model_lib.Reducers.Streams.Invariant.{HasPlainIds}
use model_lib.Reducers.Nicknames.Users.{RemovesOther}
use model_lib.Reducers.Notifications.Entries.{IsMade}
use model_lib.Store.{Env, App, dispatch}
use model_lib.Store.Dispatch.{dispatch-media}
use model_lib.Client.Notify.{notify}
use model_lib.Client.Calls.{Session, Event}
use model_lib.Client.Calls.Handlers.{IsSound, step-IsSound}
use model_lib.Client.Calls.Untouched.{notify-media}
use model_lib.Client.Connecting.{Payloads, event_of, on_connect, on_disconnect}
use model_lib.Client.Moves.{IsUsual, Moves, Moves-keep, note_Moves}
use model_lib.Client.Moves.Good.{IsGood, dispatch-IsGood, Moves-IsGood}
use model_lib.Client.Moves.Server.{IsFair}
use model_lib.System.{heard_event, hear}
use model_lib.System.Moving.{session_step-Moves}
use model_lib.Components.Media.Submitting.{session_step}
use model_lib.SocketClient.{Emitted, event_name, event_payload}
use model_lib.Client.Connecting.Following.{told_by, told_after}

-- The ids in the server's messages are plain keys, and the local user's "_me_" is none of them.
pub record IsHonest (payloads : Payloads) : Type 0 where
  pub users : (s : String) → All IsOther (payloads.users s).peer_ids
  pub hang_up : (s : String) → IsPlainKey (payloads.hang_up s)

-- Whether the client is connected, as the store has it.
abbrev flag : App → Bool
flag app = app.state.media.socket_connected

-- Of the event that a message is, if it is one.
abbrev IsFairAt : Option Event → Type 0
IsFairAt none = Unit
IsFairAt (some event) = IsFair event

event_of-IsFairAt :
    (payloads : Payloads) (type payload : String)
    → IsHonest payloads
    → IsFairAt (event_of payloads type payload)
unfolding event_of
event_of-IsFairAt payloads type payload h = elim (Bool-cases (type =? "users")) [
  | inl users ↦ rw (users, event_of) (h.users payload)
  | inr other ↦ elim (Bool-cases (type =? "signal")) [
    | inl signal ↦ rw (other, event_of, signal) tt
    | inr third ↦ elim (Bool-cases (type =? "hangUp")) [
      | inl hang_up ↦ rw (other, event_of, third, hang_up) (h.hang_up payload)
      | inr none_of_them ↦ rw (other, event_of, third, none_of_them) tt
    ]
  ]
]

media-flag :
    (s : MediaState) (a : Action) → IsUsual a → (media s a).socket_connected ≡ s.socket_connected
unfolding media handle_enumerate handle_media_stream handle_play handle_dial
media-flag s (Action.media_enumerate pending) u = refl
media-flag s (Action.media_enumerate (resolved x)) u = refl
media-flag s (Action.media_enumerate (rejected e)) u = refl
media-flag s (Action.media_stream pending) u = refl
media-flag s (Action.media_stream (resolved x)) u = refl
media-flag s (Action.media_stream (rejected e)) u = refl
media-flag s (Action.media_play pending) u = refl
media-flag s (Action.media_play (resolved x)) u = refl
media-flag s (Action.media_play (rejected e)) u = ground arith
media-flag s (Action.dial pending) u = refl
media-flag s (Action.dial (resolved x)) u = refl
media-flag s (Action.dial (rejected e)) u = refl
media-flag s Action.socket_connected u = absurd u
media-flag s Action.socket_disconnected u = absurd u
media-flag s _ u = refl

module _ (env : Env) where
  usual-flag : (a : Action) (app : App) → IsUsual a → flag (dispatch env a app) ≡ flag app
  usual-flag a app u =
      ap (λ (s : MediaState). s.socket_connected) (dispatch-media env a app)
      ∙ media-flag app.state.media a u

  pub Moves-flag : (a b : App) → Moves env a b → flag b ≡ flag a
  Moves-flag a b m =
      Moves-keep env (λ x. flag x ≡ flag a)
        (λ type text args app e.
          ap (λ (s : MediaState). s.socket_connected) (notify-media env type text args app) ∙ e)
        (λ action app u e. usual-flag action app u ∙ e) (λ f app t e. e) a b m refl

  -- What holds of a session, where the store says that the client is connected or not.
  pub record IsRight (connected : Bool) (s : Session) : Type 0 where
    pub good : IsGood env s.app
    pub sound : IsSound s
    pub told : flag s.app ≡ connected

  -- Moves of a session that stays sound.
  pub moved-IsRight :
      (b : Bool) (s s' : Session) → Moves env s.app s'.app → IsSound s' → IsRight b s → IsRight b s'
  moved-IsRight b s s' m sound r = record {
    good = Moves-IsGood env s.app s'.app m r.good;
    sound = sound;
    told = Moves-flag s.app s'.app m ∙ r.told;
  }

  said-IsRight :
      (b b' : Bool) (type : NotifyType) (text : String) (a : Action) (s : Session)
      → HasPlainIds a
      → RemovesOther a
      → IsMade env.lodash (notify env type text [] s.app).page.unique_ids a
      → ((m : MediaState) → (media m a).socket_connected ≡ b')
      → IsRight b s
      → IsRight b' (record s { app = dispatch env a (notify env type text [] s.app) })
  said-IsRight b b' type text a s plain other made says r = record {
    good =
        dispatch-IsGood env a _ plain other made
          (Moves-IsGood env s.app _ (note_Moves env type text [] s.app) r.good);
    sound = r.sound;
    told = ap (λ (m : MediaState). m.socket_connected) (dispatch-media env a _) ∙ says _;
  }

module _ (env : Env) (call_id : String) where
  pub session_step-IsRight :
      (b : Bool) (event : Event) (s : Session)
      → IsFair event
      → IsRight env b s
      → IsRight env b (session_step env call_id event s)
  unfolding session_step
  session_step-IsRight b event s fair r =
      moved-IsRight env b s (session_step env call_id event s)
        (session_step-Moves env call_id event s fair) (step-IsSound env call_id event s r.sound) r

module _ (env : Env) (call_id : String) (payloads : Payloads) where
  heard_event-IsRight :
      (b : Bool) (o : Option Event) (s : Session)
      → IsFairAt o
      → IsRight env b s
      → IsRight env b (heard_event env call_id payloads o s)
  heard_event-IsRight b none s fair r = r
  heard_event-IsRight b (some event) s fair r = session_step-IsRight env call_id b event s fair r

  hear-IsRight :
      (b : Bool) (e : Emitted) (s : Session)
      → IsHonest payloads
      → IsRight env b s
      → IsRight env (told_by (event_name e) b) (hear env call_id payloads e s)
  unfolding hear on_connect on_disconnect media
  hear-IsRight b e s h r = elim (Bool-cases (event_name e =? "connect")) [
    | inl on ↦
        rw (on, hear)
          (said-IsRight env b true NotifyType.warning "Connected to server socket"
            Action.socket_connected s tt tt tt (λ m. refl) r)
    | inr other ↦ elim (Bool-cases (event_name e =? "disconnect")) [
      | inl off ↦
          rw (other, hear, off)
            (said-IsRight env b false NotifyType.error "Server socket disconnected"
              Action.socket_disconnected s tt tt tt (λ m. refl) r)
      | inr third ↦
          rw (other, hear, third)
            (heard_event-IsRight b (event_of payloads (event_name e) (event_payload e)) s
              (event_of-IsFairAt payloads (event_name e) (event_payload e) h) r)
    ]
  ]

  -- The listeners follow what is emitted.
  pub hear_all-IsRight :
      (b : Bool) (es : List Emitted) (s : Session)
      → IsHonest payloads
      → IsRight env b s
      → IsRight env (told_after b es) (for_each (hear env call_id payloads) es s)
  hear_all-IsRight b [] s h r = r
  hear_all-IsRight b (e ∷ es) s h r =
      hear_all-IsRight (told_by (event_name e) b) es (hear env call_id payloads e s) h
        (hear-IsRight b e s h r)
