-- ===== src/System.antt =====
-- The whole client: the SocketClient, the session that listens to it, the form to join a call, the
-- connections with peers, the tracks, and what the user does
-- (src/client/actions/CallActions.ts, src/client/components/App.tsx, src/client/ws/index.ts).
pub mod Moving
pub mod Hearing
pub mod Invariant
use model_lib.Prelude.{
  ℕ, String, ◌≡◌, Option, none, some, [], for_each, ◌=?◌, if◌then◌else◌, length, drop,
}
use model_lib.Actions.{Action, Error, Peer}
use model_lib.Page.{Page}
use model_lib.Store.{Env, App, initial_state}
use model_lib.Client.Calls.{Session, Event, start}
use model_lib.Client.Connecting.{Payloads, event_of, on_connect, on_disconnect}
use model_lib.Client.Events.{
  ClientEvent, peer_fires, track_mutes, track_unmutes, timeout_fires, user_sends, acts, after_event,
}
use model_lib.Components.Media.Submitting.{
  Form, FormEvent, submitted, stream_ended, other, session_step, form_step,
}
use model_lib.Components.Application.{on_hangup}
use model_lib.SocketClient
use model_lib.SocketClient.{
  SocketClient, Emitted, event_name, event_payload, make_client, emit, after_sending, Step,
}

pub record System : Type 0 where
  pub client : SocketClient
  pub form : Form

abbrev pub on_session : (Session → Session) → System → System
on_session f s = record s { form = record s.form { session = f s.form.session } }

abbrev pub on_app : (App → App) → System → System
on_app f = on_session (λ session. record session { app = f session.app })

-- What happens to the form by itself: all else comes from the server.
abbrev pub IsOfPage : FormEvent → Type 0
IsOfPage (submitted nickname) = Unit
IsOfPage (stream_ended k outcome thrown) = Unit
IsOfPage (other (Event.timer_fired n)) = Unit
IsOfPage (other _) = ⊥

-- The actions that the page's elements dispatch themselves.
abbrev pub IsOfElement : Action → Type 0
IsOfElement (Action.notify_dismiss id) = Unit
IsOfElement (Action.media_enumerate a) = Unit
IsOfElement (Action.media_stream a) = Unit
IsOfElement (Action.media_play a) = Unit
IsOfElement (Action.media_video_constraint_set c) = Unit
IsOfElement (Action.media_audio_constraint_set c) = Unit
IsOfElement (Action.stream_remove p) = Unit
IsOfElement (Action.minimize_toggle p) = Unit
IsOfElement _ = ⊥

-- What the browser and the user bring about.
abbrev pub IsOfBrowser : ClientEvent → Type 0
IsOfBrowser (peer_fires peer e) = Unit
IsOfBrowser (track_mutes t) = Unit
IsOfBrowser (track_unmutes t) = Unit
IsOfBrowser timeout_fires = Unit
IsOfBrowser (user_sends m) = Unit
IsOfBrowser (acts a) = IsOfElement a
IsOfBrowser _ = ⊥

module _ (env : Env) (call_id : String) (payloads : Payloads) where
  abbrev pub heard_event : Option Event → Session → Session
  heard_event none s = s
  heard_event (some event) s = session_step env call_id event s

  -- The listeners of init and of the call, by the name of the event that the SocketClient emits: a
  -- message of the server may have the name of an event of the connection.
  unfoldable pub hear : Emitted → Session → Session
  unfolding on_connect on_disconnect
  hear e s =
      if event_name e =? "connect"
      then record s { app = on_connect env s.app }
      else if event_name e =? "disconnect"
      then record s { app = on_disconnect env s.app }
      else heard_event (event_of payloads (event_name e) (event_payload e)) s

  -- The states that the client can be in, from the page's load on.
  pub data Reachable (ping_text : String) : System → Type 1 where
    begins :
        (reconnect_timeout ping_interval_timeout : ℕ) (stored : Option String) (nickname : String)
        (page : Page)
        → ((peer : Peer) → page.listeners peer ≡ none)
        → Reachable ping_text (record {
          client = make_client reconnect_timeout ping_interval_timeout;
          form = record {
            session = start (record { state = initial_state stored nickname; page = page });
            stored = stored;
            asking = [];
          };
        })
    hears :
        (s : System) (c : SocketClient) (h : SocketClient.Happening)
        → Reachable ping_text s
        → Step ping_text s.client h c
        → Reachable ping_text
            (record (on_session (for_each hear (drop (length s.client.emitted) c.emitted)) s) {
              client = c;
            })
    sends :
        (s : System) (text : String)
        → Reachable ping_text s
        → Reachable ping_text (record s { client = after_sending (emit text s.client) })
    fills :
        (s : System) (e : FormEvent)
        → Reachable ping_text s
        → IsOfPage e
        → Reachable ping_text (record s { form = form_step env call_id e s.form })
    lives :
        (s : System) (e : ClientEvent)
        → Reachable ping_text s
        → IsOfBrowser e
        → Reachable ping_text (on_app (after_event env e) s)
    hangs_up :
        (s : System) (thrown : Option Error)
        → Reachable ping_text s
        → Reachable ping_text (on_session (on_hangup env call_id thrown) s)
