-- ===== src/Client/Calls.antt =====
-- src/client/actions/CallActions.ts, handshake and removeEventListeners of SocketActions.ts, and
-- src/client/async/middleware.ts for the promises of `dial`: joining a call and hanging up.
pub mod Handlers
pub mod Untouched
pub mod Outcomes
pub mod Delivery
use model_lib.Prelude.{
  ℕ, suc, ◌+◌, String, Bool, true, false, not, Option, none, some, List, [], ◌∷◌, ◌++◌, ◌==◌,
  for_each, filter, any, if◌then◌else◌,
}
use model_lib.Actions
use model_lib.Actions.{Action, Async, Error, pending, resolved, rejected}
use model_lib.Page
use model_lib.Page.{Call, SocketMessage, SignalData, record_call, update}
use model_lib.Store.{Env, App, dispatch}
use model_lib.Client.PeerHandler.{on_page}
use model_lib.Client.SocketHandler
use model_lib.Client.SocketHandler.{Users, handle_users, handle_hang_up}

-- What is called for an event of the socket: a method of a SocketHandler, or the function that
-- resolves the promise of a dial. All SocketHandlers are alike: they have the same store, socket and
-- user, and no stream.
pub data Listener : Type 0 where
  handler : Listener
  resolves : ℕ → Listener

-- The client with the socket's listeners, the promises that `dial` has made (by number) with those
-- that are settled, the timers that are still to fire, and the reactions to settled promises, which
-- run when the event that is being handled is over.
pub record Session : Type 0 where
  pub app : App
  pub on_signal : List Listener
  pub on_users : List Listener
  pub on_hang_up : List Listener
  pub dials_made : ℕ
  pub settled : ℕ → Bool
  pub timers : List ℕ
  pub reactions : List (Async (Unit {0}))

abbrev pub start : App → Session
start app = record {
  app = app;
  on_signal = [];
  on_users = [];
  on_hang_up = [];
  dials_made = 0;
  settled = λ n. false;
  timers = [];
  reactions = [];
}

abbrev pub timed_out : Error
timed_out = record { name = "Error"; message = "Dial timed out!" }

abbrev pub is_resolving : ℕ → Listener → Bool
is_resolving n handler = false
is_resolving n (resolves m) = n == m

-- resolve and reject: only the first of them counts.
unfoldable pub settle : ℕ → Async (Unit {0}) → Session → Session
settle n outcome s = record s {
  settled = update s.settled n true;
  reactions = if s.settled n then s.reactions else s.reactions ++ outcome ∷ [];
}

unfoldable pub remove_event_listeners : Session → Session
remove_event_listeners s = record s { on_signal = []; on_users = []; on_hang_up = [] }

-- What happens to the client, one thing after another.
pub data Event : Type 0 where
  dial_called : String → Option Error → Event
  hang_up_called : Option Error → Event
  users_received : Users → Event
  signal_received : String → SignalData → Event
  hang_up_received : String → Event
  timer_fired : ℕ → Event

-- hangUp, with the dispatch of the action that it returns, where socket.emit does not throw; what it
-- does to the socket's listeners is in hang_up_call.
unfoldable pub hang_up : Env → App → App
hang_up env app =
    dispatch env Action.hang_up
      (on_page (record_call (Call.socket_emit (SocketMessage.hang_up env.user_id))) app)

module _ (env : Env) (call_id : String) where
  -- The middleware's reaction to a promise that is settled.
  unfoldable pub react : Session → Session
  react s = record s {
    app = for_each (λ o. dispatch env (Action.dial o)) s.reactions s.app;
    reactions = [];
  }

  -- handshake, up to the message to the server
  unfoldable pub listen : Session → Session
  unfolding remove_event_listeners
  listen s =
      let bare = remove_event_listeners s in
      record bare {
        on_signal = bare.on_signal ++ handler ∷ [];
        on_users = bare.on_users ++ handler ∷ [];
        on_hang_up = bare.on_hang_up ++ handler ∷ [];
      }

  -- The function that `dial` passes to its promise; `thrown` is what socket.emit throws, if it does,
  -- which rejects the promise.
  unfoldable pub call : String → Option Error → Session → Session
  unfolding listen settle
  call nickname (some thrown) s =
      settle s.dials_made (rejected thrown) (record (listen s) { dials_made = suc s.dials_made })
  call nickname none s =
      let ready = listen s in
      record ready {
        app =
            on_page
              (record_call (Call.socket_emit (SocketMessage.ready call_id nickname env.user_id)))
              ready.app;
        on_users = ready.on_users ++ resolves s.dials_made ∷ [];
        timers = ready.timers ++ s.dials_made ∷ [];
        dials_made = suc s.dials_made;
      }

  -- dispatch(dial({ nickname }))
  unfoldable pub dial : String → Option Error → Session → Session
  unfolding call
  dial nickname thrown s =
      let called = call nickname thrown s in
      record called { app = dispatch env (Action.dial pending) called.app }

  -- dispatch(hangUp()): nothing happens if socket.emit throws.
  unfoldable pub hang_up_call : Option Error → Session → Session
  unfolding remove_event_listeners
  hang_up_call (some thrown) s = s
  hang_up_call none s = record (remove_event_listeners s) { app = hang_up env s.app }

  unfoldable pub fire_users : Users → Listener → Session → Session
  unfolding settle
  fire_users users handler s = record s { app = handle_users env none users s.app }
  fire_users users (resolves n) s =
      settle n (resolved tt)
        (record s { on_users = filter (λ l. not (is_resolving n l)) s.on_users })

  unfoldable pub fire_app : (App → App) → Listener → Session → Session
  fire_app f handler s = record s { app = f s.app }
  fire_app f (resolves n) s = s

  unfoldable pub handle_event : Event → Session → Session
  unfolding dial hang_up_call fire_users fire_app settle
  handle_event (dial_called nickname thrown) s = dial nickname thrown s
  handle_event (hang_up_called thrown) s = hang_up_call thrown s
  handle_event (users_received users) s = for_each (fire_users users) s.on_users s
  handle_event (signal_received user_id data') s =
      for_each (fire_app (SocketHandler.handle_signal env user_id data')) s.on_signal s
  handle_event (hang_up_received user_id) s =
      for_each (fire_app (handle_hang_up env user_id)) s.on_hang_up s
  handle_event (timer_fired n) s =
      if any (λ t. t == n) s.timers
      then settle n (rejected timed_out) (record s { timers = filter (λ t. not (t == n)) s.timers })
      else s

  unfoldable pub step : Event → Session → Session
  unfolding handle_event react
  step event s = react (handle_event event s)

  abbrev pub run : List Event → Session → Session
  run events s = for_each step events s
