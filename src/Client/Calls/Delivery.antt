-- ===== src/Client/Calls/Delivery.antt =====
-- Each event of the server is handled once, and each dial has an outcome at last
-- (handshake in src/client/actions/SocketActions.ts, dial in src/client/actions/CallActions.ts).
use model_lib.Prelude.{
  ℕ, ◌<◌, String, ◌≡◌, refl, true, List, [], ◌⊎◌, inl, inr, none, for_each_keeps, arith, Bool-cases,
}
use model_lib.Actions.{Action, resolved}
use model_lib.Page.{SignalData}
use model_lib.Store.{Env, App, dispatch}
use model_lib.Client.SocketHandler
use model_lib.Client.SocketHandler.{Users, handle_users, handle_hang_up}
use model_lib.Client.Calls.{
  Session, start, settle, react, fire_app, fire_users, Event, handle_event, step, run,
}
use model_lib.Client.Calls.Handlers.{deaf, hearing, waiting, IsSound, has_timer, run-IsSound}

module _ (env : Env) (call_id : String) where
  -- What a session's state says about who hears the server.
  pub data Once (s : Session) (user_id : String) (data' : SignalData) (users : Users) : Type 0 where
    unheard :
        s.on_users ≡ []
        → (step env call_id (Event.signal_received user_id data') s).app ≡ s.app
        → (step env call_id (Event.hang_up_received user_id) s).app ≡ s.app
        → (step env call_id (Event.users_received users) s).app ≡ s.app
        → Once s user_id data' users
    heard :
        (step env call_id (Event.signal_received user_id data') s).app
          ≡ SocketHandler.handle_signal env user_id data' s.app
        → (step env call_id (Event.hang_up_received user_id) s).app
          ≡ handle_hang_up env user_id s.app
        → ((step env call_id (Event.users_received users) s).app
            ≡ handle_users env none users s.app)
          ⊎ ((step env call_id (Event.users_received users) s).app
              ≡ dispatch env (Action.dial (resolved tt)) (handle_users env none users s.app))
        → Once s user_id data' users

  IsSound-Once :
      (s : Session) (user_id : String) (data' : SignalData) (users : Users)
      → IsSound s
      → s.reactions ≡ []
      → Once s user_id data' users
  unfolding step handle_event react fire_app fire_users settle
  IsSound-Once s user_id data' users (deaf a b c, t) done =
      unheard c (rw (a, done) refl) (rw (b, done) refl) (rw (c, done) refl)
  IsSound-Once s user_id data' users (hearing a b c, t) done =
      heard (rw (a, done) refl) (rw (b, done) refl) (inl (rw (c, done) refl))
  IsSound-Once s user_id data' users (waiting n a b c d, t) done =
      heard (rw (a, done) refl) (rw (b, done) refl) (elim (Bool-cases (s.settled n)) [
        | inl old ↦ inl (rw (c, old, done) refl)
        | inr new ↦ inr (rw (c, new, done) refl)
      ])

  run-reactions :
      (app : App) (events : List Event) → (run env call_id events (start app)).reactions ≡ []
  unfolding step react
  run-reactions app events =
      for_each_keeps (step env call_id) (λ s. s.reactions ≡ []) (λ e s h. refl) events (start app)
        refl

  -- After any history of dials, hang-ups, timers and messages of the server the client either
  -- hears nothing of the server, or handles a signal, a hang-up and a list of users once each,
  -- the list perhaps with the outcome of the dial that it answers.
  pub run-Once :
      (app : App) (events : List Event) (user_id : String) (data' : SignalData) (users : Users)
      → Once (run env call_id events (start app)) user_id data' users
  run-Once app events user_id data' users =
      IsSound-Once (run env call_id events (start app)) user_id data' users
        (run-IsSound env call_id app events) (run-reactions app events)

  settled-timer_fired :
      (n : ℕ) (s : Session)
      → IsSound s
      → n < s.dials_made
      → (step env call_id (Event.timer_fired n) s).settled n ≡ true
  unfolding step handle_event react settle
  settled-timer_fired n s h l = elim (Bool-cases (has_timer s.timers n)) [
    | inl there ↦ rw there (ground arith)
    | inr gone ↦ rw gone (ground (arith, h.1.left n l))
  ]

  -- After any history of dials, hang-ups, timers and messages of the server, once the timer of a
  -- dial that was made has fired the dial has an outcome.
  pub run-settled :
      (app : App) (events : List Event) (n : ℕ)
      → n < (run env call_id events (start app)).dials_made
      → (step env call_id (Event.timer_fired n) (run env call_id events (start app))).settled n
        ≡ true
  run-settled app events n l =
      settled-timer_fired n (run env call_id events (start app))
        (run-IsSound env call_id app events) l
