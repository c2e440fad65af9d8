-- ===== src/System/Invariant.antt =====
-- What holds of the whole client at every time, from the page's load on
-- (src/client/actions/CallActions.ts, src/client/components/App.tsx, src/client/ws/index.ts).
use model_lib.Prelude.{
  String, ◌≡◌, ◌⊎◌, All, for_each, for_each-append, subst, refl, sym, ap, ◌∙◌, Bool, true, false,
  Option, none, some, [], ◌∷◌, ◌++◌, length, drop, arith, Option-cases, inl, inr, eq_refl,
}
use model_lib.Prelude.Dict.{get}
use model_lib.Actions.{Action, pending, me, Peer, Error}
use model_lib.Page.{Page}
use model_lib.Page.Turning.{IsHeard}
use model_lib.Reducers.Media.{join_enabled}
use model_lib.Reducers.Streams.Invariant.{empty-IsWellFormed}
use model_lib.Store.{Env, initial_state}
use model_lib.Client.Capture.{ask_for_stream}
use model_lib.Client.Calls.{Session, Event, start, hang_up_call, remove_event_listeners}
use model_lib.Client.Calls.Handlers.{IsSound, run-IsSound, step-IsSound, deaf}
use model_lib.Client.Connecting.{Payloads}
use model_lib.Client.Connecting.Following.{
  drop-all, step-Tells, told_after, IsServed, told_after-served,
}
use model_lib.Client.Moves.{act_Moves}
use model_lib.Client.Moves.Good.{IsGood}
use model_lib.Components.Media.Submitting.{
  Form, FormEvent, submitted, stream_ended, other, waiting_at, dial_after, session_step,
  before_dial, form_step,
}
use model_lib.Components.Application.{on_hangup}
use model_lib.System.{
  System, IsOfPage, Reachable, begins, hears, sends, fills, lives, hangs_up, hear,
}
use model_lib.System.Moving.{after_event-Moves, dial_after-Moves, on_hangup-Moves}
use model_lib.System.Hearing.{
  IsHonest, IsRight, moved-IsRight, session_step-IsRight, hear_all-IsRight,
}
use model_lib.SocketClient
use model_lib.SocketClient.{
  SocketClient, Emitted, make_client, connect_socket, emit, passed_on, dropped, closing,
  after_sending, Step,
}
use model_lib.SocketClient.Modes.{IsClient, on_mode, sending-same, sent-IsClient}
use model_lib.SocketClient.Connection.{make_client-IsClient, step-IsClient}

-- The page hears no connection yet.
unheard-IsHeard : (page : Page) → ((p : Peer) → page.listeners p ≡ none) → IsHeard page
unheard-IsHeard page h = record { other = λ p l e. cc (h p, e) }

-- What a step of the SocketClient emits comes after what it had emitted.
step-told_after :
    (t : String) (c c' : SocketClient) (h : SocketClient.Happening)
    → Step t c h c'
    → told_after (told_after false c.emitted) (drop (length c.emitted) c'.emitted)
      ≡ told_after false c'.emitted
step-told_after t c c' h st =
    let (es, e) = step-Tells t c c' h st in
    ap (λ l. told_after (told_after false c.emitted) (drop (length c.emitted) l)) e
    ∙ ap (told_after (told_after false c.emitted)) (drop-all c.emitted es)
    ∙ sym (for_each-append _ c.emitted es false)
    ∙ ap (told_after false) (sym e)

module _ (env : Env) where
  start-IsRight :
      (stored : Option String) (nickname : String) (page : Page)
      → ((p : Peer) → page.listeners p ≡ none)
      → IsRight env false (start (record { state = initial_state stored nickname; page = page }))
  unfolding get
  start-IsRight stored nickname page h = record {
    good = record {
      streams = empty-IsWellFormed;
      filed = tt;
      has_me = ground (arith, eq_refl me);
      heard = unheard-IsHeard page h;
    };
    sound = run-IsSound env "" (record { state = initial_state stored nickname; page = page }) [];
    told = refl;
  }

module _ (env : Env) (call_id : String) where
  form_step-IsRight :
      (b : Bool) (e : FormEvent) (f : Form)
      → IsOfPage e
      → IsRight env b f.session
      → IsRight env b (form_step env call_id e f).session
  unfolding form_step dial_after session_step ask_for_stream
  form_step-IsRight b (submitted nickname) f of_page r =
      moved-IsRight env b f.session _ (act_Moves env (Action.media_stream pending) f.session.app tt)
        r.sound r
  form_step-IsRight b (stream_ended k outcome thrown) f of_page r =
      elim (Option-cases (waiting_at k f.asking)) [
        | inl nobody ↦ rw (nobody, form_step) r
        | inr (nickname, there) ↦
            rw (there, form_step)
              (moved-IsRight env b f.session
                (dial_after env call_id outcome thrown nickname f.session)
                (dial_after-Moves env call_id outcome thrown nickname f.session)
                (step-IsSound env call_id (Event.dial_called nickname thrown)
                  (record f.session { app = before_dial env outcome f.session.app }) r.sound)
                r)
      ]
  form_step-IsRight b (other (Event.timer_fired n)) f of_page r =
      session_step-IsRight env call_id b (Event.timer_fired n) f.session tt r
  form_step-IsRight b (other (Event.dial_called nickname thrown)) f of_page r = absurd of_page
  form_step-IsRight b (other (Event.hang_up_called thrown)) f of_page r = absurd of_page
  form_step-IsRight b (other (Event.users_received users)) f of_page r = absurd of_page
  form_step-IsRight b (other (Event.signal_received user_id data')) f of_page r = absurd of_page
  form_step-IsRight b (other (Event.hang_up_received user_id)) f of_page r = absurd of_page

  on_hangup-IsSound :
      (thrown : Option Error) (s : Session) → IsSound s → IsSound (on_hangup env call_id thrown s)
  unfolding on_hangup hang_up_call remove_event_listeners
  on_hangup-IsSound (some e) s h = h
  on_hangup-IsSound none s h = (deaf refl refl refl, h.1)

-- What holds of the whole client: of the store and the page, of the listeners and the dials, of the
-- SocketClient, and of what the store says of the connection.
pub record IsSystem (env : Env) (s : System) : Type 0 where
  pub good : IsGood env s.form.session.app
  pub sound : IsSound s.form.session
  pub client : IsClient s.client
  pub told : s.form.session.app.state.media.socket_connected ≡ told_after false s.client.emitted

abbrev with_right :
    (env : Env) (s : System)
    → IsRight env (told_after false s.client.emitted) s.form.session
    → IsClient s.client
    → IsSystem env s
with_right env s r w = record { good = r.good; sound = r.sound; client = w; told = r.told }

abbrev right_of :
    (env : Env) (s : System)
    → IsSystem env s
    → IsRight env (told_after false s.client.emitted) s.form.session
right_of env s h = record { good = h.good; sound = h.sound; told = h.told }

module _ (env : Env) (call_id : String) (payloads : Payloads) (honest : IsHonest payloads) where
  -- From the page's load on, whatever the server, the connection to it, the peers, the browser
  -- and the user do: the streams are well formed, each notification is filed under its own id,
  -- the local user is among the users, only connections with others are listened to; the socket
  -- has one handler for each of its events or none, and every dial has an outcome or its timer;
  -- the SocketClient is in one of its modes; and the store says that the client is connected
  -- exactly if, of the events "connect" and "disconnect" that the socket has emitted, of itself
  -- or because the server's message had that type, the last was "connect". The ids in the
  -- server's messages must be plain keys other than "_me_".
  pub Reachable-IsSystem :
      (t : String) (s : System) → Reachable env call_id payloads t s → IsSystem env s
  unfolding make_client connect_socket
  Reachable-IsSystem t _ (begins r p stored nickname page h) =
      with_right env _ (start-IsRight env stored nickname page h) (make_client-IsClient r p)
  Reachable-IsSystem t _ (hears s c h l st) =
      let before = Reachable-IsSystem t s l in
      let news = drop (length s.client.emitted) c.emitted in
      with_right env _
        (subst (λ b. IsRight env b (for_each (hear env call_id payloads) news s.form.session))
          (step-told_after t s.client c h st)
          (hear_all-IsRight env call_id payloads (told_after false s.client.emitted) news
            s.form.session honest (right_of env s before)))
        (step-IsClient t s.client c h st before.client)
  Reachable-IsSystem t _ (sends s text l) =
      let before = Reachable-IsSystem t s l in
      record {
        good = before.good;
        sound = before.sound;
        client = sent-IsClient text s.client before.client;
        told =
            sending-same text s.client
              (λ c. s.form.session.app.state.media.socket_connected ≡ told_after false c.emitted)
              before.told before.told;
      }
  Reachable-IsSystem t _ (fills s e l of_page) =
      let before = Reachable-IsSystem t s l in
      with_right env _ (form_step-IsRight env call_id _ e s.form of_page (right_of env s before))
        before.client
  Reachable-IsSystem t _ (lives s e l of_browser) =
      let before = Reachable-IsSystem t s l in
      with_right env _
        (moved-IsRight env _ s.form.session _
          (after_event-Moves env e s.form.session.app of_browser before.good.heard) before.sound
          (right_of env s before))
        before.client
  Reachable-IsSystem t _ (hangs_up s thrown l) =
      let before = Reachable-IsSystem t s l in
      with_right env _
        (moved-IsRight env _ s.form.session _ (on_hangup-Moves env call_id thrown s.form.session)
          (on_hangup-IsSound env call_id thrown s.form.session before.sound)
          (right_of env s before))
        before.client

  -- At any time from the page's load on, while the form to join a call is enabled, sending never
  -- throws: what the client sends goes out over the last WebSocket, or it is dropped, if that
  -- one has begun to close. No message of the server may have had the type "connect" or
  -- "disconnect", and the ids in its messages must be plain keys other than "_me_".
  pub Reachable-join_enabled :
      (t : String) (s : System) (text : String)
      → Reachable env call_id payloads t s
      → All IsServed s.client.emitted
      → join_enabled s.form.session.app.state.media ≡ true
      → (emit text s.client
          ≡ passed_on (record s.client { sent = s.client.sent ++ (s.client.socket, text) ∷ [] }))
        ⊎ ((s.client.phases s.client.socket ≡ closing) × (emit text s.client ≡ dropped s.client))
  unfolding emit
  Reachable-join_enabled t s text l served enabled =
      let holds = Reachable-IsSystem t s l in
      let follows =
        told_after-served false s.client.connected s.client.emitted holds.client.story served in
      let on : s.client.connected ≡ true = sym follows ∙ sym holds.told ∙ ground arith in
      elim (on_mode s.client (s.client.phases s.client.socket) holds.client.mode on) [
        | inl there ↦ inl (rw (there, emit) refl)
        | inr ending ↦ inr (ending, rw (ending, emit) refl)
      ]
