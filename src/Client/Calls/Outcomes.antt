-- ===== src/Client/Calls/Outcomes.antt =====
-- What becomes of a dial (dial in src/client/actions/CallActions.ts, with the middleware).
use model_lib.Prelude.{
  ℕ, suc, String, ◌≡◌, refl, ap, ◌∙◌, Bool, true, false, none, [], ◌∷◌, ◌++◌, inl, inr, arith,
  Bool-cases,
}
use model_lib.Page.{update}
use model_lib.Actions.{Action, Async, resolved, rejected}
use model_lib.Reducers.Media.{MediaState, in_call, hung_up, handle_dial}
use model_lib.Reducers.Peers.{peers}
use model_lib.Store.{Env, App, dispatch}
use model_lib.Store.Dispatch.{dispatch-peers}
use model_lib.Client.SocketHandler.{Users, handle_users}
use model_lib.Client.Calls.{
  Session, handler, resolves, settle, remove_event_listeners, react, listen, call, dial, fire_users,
  Event, handle_event, step, run, timed_out,
}
use model_lib.Client.Calls.Untouched.{dial_state-dispatch}
use model_lib.Client.Calls.Handlers.{IsSound, has_timer, has_timer-append, step-IsSound}

module _ (env : Env) where
  pub dial-peers :
      (a : Async (Unit {0})) (app : App)
      → (dispatch env (Action.dial a) app).state.peers ≡ app.state.peers
  unfolding peers
  dial-peers a app = dispatch-peers env (Action.dial a) app

module _ (env : Env) (call_id : String) where
  after_step : (event : Event) (s : Session) → (step env call_id event s).reactions ≡ []
  unfolding step react
  after_step event s = refl

  -- The timer of a dial that is settled changes nothing.
  pub timer_late :
      (n : ℕ) (s : Session)
      → s.settled n ≡ true
      → s.reactions ≡ []
      → (step env call_id (Event.timer_fired n) s).app ≡ s.app
  unfolding step handle_event settle react
  timer_late n s e done = elim (Bool-cases (has_timer s.timers n)) [
    | inl there ↦ rw (there, e, done) refl
    | inr gone ↦ rw (gone, done) refl
  ]

  timer_rejects :
      (n : ℕ) (s : Session)
      → has_timer s.timers n ≡ true
      → s.settled n ≡ false
      → s.reactions ≡ []
      → (step env call_id (Event.timer_fired n) s).app
        ≡ dispatch env (Action.dial (rejected timed_out)) s.app
  unfolding step handle_event settle react
  timer_rejects n s there e done = rw (there, e, done) refl

  -- The list of users while dial `n` waits for it.
  users_resolve :
      (n : ℕ) (users : Users) (s : Session)
      → s.on_users ≡ handler ∷ resolves n ∷ []
      → s.settled n ≡ false
      → s.reactions ≡ []
      → let after = step env call_id (Event.users_received users) s in
        (after.app ≡ dispatch env (Action.dial (resolved tt)) (handle_users env none users s.app))
        × (after.settled ≡ update s.settled n true)
        × (after.timers ≡ s.timers)
  unfolding step handle_event fire_users settle react
  users_resolve n users s e unsettled done = rw (e, unsettled, done) (refl, refl, refl)

  -- A new dial: it has its number, waits for the users, and has its timer.
  dial_waits :
      (nickname : String) (s : Session)
      → IsSound s
      → let after = step env call_id (Event.dial_called nickname none) s in
        (after.on_users ≡ handler ∷ resolves s.dials_made ∷ [])
        × (after.settled s.dials_made ≡ false)
        × (after.settled ≡ s.settled)
        × (after.timers ≡ s.timers ++ s.dials_made ∷ [])
        × (after.dials_made ≡ suc s.dials_made)
        × (after.reactions ≡ [])
  unfolding step handle_event dial call listen remove_event_listeners settle react
  dial_waits nickname s h = (refl, h.1.fresh s.dials_made (omega arith), refl, refl, refl, refl)

  -- In a session whose listeners and timers are sound, a dial that the server answers at once
  -- puts the client in a call, and the timer of the dial then changes nothing.
  pub dial_answered :
      (nickname : String) (users : Users) (s : Session)
      → IsSound s
      → let answered =
          run env call_id (Event.dial_called nickname none ∷ Event.users_received users ∷ []) s in
        (answered.app.state.media.dial_state ≡ in_call)
        × ((step env call_id (Event.timer_fired s.dials_made) answered).app ≡ answered.app)
  unfolding handle_dial
  dial_answered nickname users s h =
      let dialled = step env call_id (Event.dial_called nickname none) s in
      let (waits, unsettled, _, _, _, done) = dial_waits nickname s h in
      let (app, settled, _) = users_resolve s.dials_made users dialled waits unsettled done in
      (
        ap (λ (x : App). x.state.media.dial_state) app
            ∙ ap (λ (x : MediaState). x.dial_state) (dial_state-dispatch env (resolved tt) _),
        timer_late s.dials_made (step env call_id (Event.users_received users) dialled)
            (ap (λ (f : ℕ → Bool). f s.dials_made) settled ∙ ground arith) (after_step _ dialled),
      )

  abbrev pub onto : (App → App) → Session → Session
  onto g s = record s { app = g s.app }

  -- Two dials that one list of users answers, whatever else changes the client after each of these:
  -- the answer is that of the second, and the timer of the first rejects it.
  pub stale_timer_lem :
      (first second : String) (users : Users) (g₁ g₂ g₃ : App → App) (s : Session)
      → IsSound s
      → let once = onto g₁ (step env call_id (Event.dial_called first none) s) in
        let twice = onto g₂ (step env call_id (Event.dial_called second none) once) in
        let met = step env call_id (Event.users_received users) twice in
        let late = step env call_id (Event.timer_fired s.dials_made) (onto g₃ met) in
        (met.app.state.media.dial_state ≡ in_call)
        × (late.app ≡ dispatch env (Action.dial (rejected timed_out)) (g₃ met.app))
  unfolding handle_dial
  stale_timer_lem first second users g₁ g₂ g₃ s h =
      let once = onto g₁ (step env call_id (Event.dial_called first none) s) in
      let twice = onto g₂ (step env call_id (Event.dial_called second none) once) in
      let met = step env call_id (Event.users_received users) twice in
      let (_, unsettled, same, timers, made, _) = dial_waits first s h in
      let (waits, unsettled₂, same₂, timers₂, _, done) =
        dial_waits second once (step-IsSound env call_id (Event.dial_called first none) s h) in
      let (app, settled, timers₃) =
        users_resolve once.dials_made users twice waits unsettled₂ done in
      let open_still : met.settled s.dials_made ≡ false =
        ap (λ (f : ℕ → Bool). f s.dials_made) settled
        ∙ ground (arith, made, ap (λ (f : ℕ → Bool). f s.dials_made) same₂, unsettled) in
      let there : has_timer met.timers s.dials_made ≡ true =
        ap (λ ts. has_timer ts s.dials_made) (timers₃ ∙ timers₂)
        ∙ has_timer-append once.timers once.dials_made s.dials_made (
            inl (
              ap (λ ts. has_timer ts s.dials_made) timers
              ∙ has_timer-append s.timers s.dials_made s.dials_made (inr refl))) in
      (
        ap (λ (x : App). x.state.media.dial_state) app
            ∙ ap (λ (x : MediaState). x.dial_state) (dial_state-dispatch env (resolved tt) _),
        timer_rejects s.dials_made (onto g₃ met) there open_still (after_step _ twice),
      )

  -- In a session whose listeners and timers are sound, a client that dials again before the
  -- server has answered is put in a call by the answer, and out of it by the timer of the first
  -- dial, with its connections as they were.
  pub stale_timer_hangs_up :
      (first second : String) (users : Users) (s : Session)
      → IsSound s
      → let answered =
          run env call_id
            (Event.dial_called first none
              ∷ Event.dial_called second none
              ∷ Event.users_received users
              ∷ [])
            s in
        let late = step env call_id (Event.timer_fired s.dials_made) answered in
        (answered.app.state.media.dial_state ≡ in_call)
        × (late.app.state.media.dial_state ≡ hung_up)
        × (late.app.state.peers ≡ answered.app.state.peers)
  unfolding handle_dial
  stale_timer_hangs_up first second users s h =
      let (meets, late) = stale_timer_lem first second users (λ a. a) (λ a. a) (λ a. a) s h in
      (
        meets,
        ap (λ (x : App). x.state.media.dial_state) late
            ∙ ap (λ (x : MediaState). x.dial_state)
                (dial_state-dispatch env (rejected timed_out) _),
        ap (λ (x : App). x.state.peers) late ∙ dial-peers env _ _,
      )
