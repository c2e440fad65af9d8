-- ===== src/Client/Calls/Handlers.antt =====
-- However often the client dials, one handler listens to each event of the server, and a dial that
-- has no outcome yet has a timer (src/client/actions/CallActions.ts).
use model_lib.Prelude.{
  ℕ, suc, ◌≤◌, ◌<◌, String, ◌≡◌, ◌≢◌, refl, sym, ap, ◌∙◌, subst, Bool, true, false, not, none, some,
  List, [], ◌∷◌, ◌++◌, ◌⊎◌, inl, inr, ◌==◌, any, filter, for_each, for_each_keeps, arith,
  Bool-cases,
}
use model_lib.Page.{update}
use model_lib.Store.{Env, App}
use model_lib.Client.SocketHandler
use model_lib.Client.SocketHandler.{Users, handle_hang_up}
use model_lib.Client.Calls.{
  Session, Listener, handler, resolves, start, settle, remove_event_listeners, react, listen, call,
  dial, hang_up_call, fire_users, fire_app, Event, handle_event, step, run, is_resolving,
}

-- Whether a timer of the list is that of dial `n`.
abbrev pub has_timer : List ℕ → ℕ → Bool
has_timer timers n = any (λ t. t == n) timers

-- Of the first `made` dials, each is settled or has its timer; no other is settled or has a timer.
pub record Timed (made : ℕ) (settled : ℕ → Bool) (timers : List ℕ) : Type 0 where
  pub left : (n : ℕ) → n < made → settled n ≡ false → has_timer timers n ≡ true
  pub fresh : (n : ℕ) → made ≤ n → settled n ≡ false
  pub known : (n : ℕ) → has_timer timers n ≡ true → n < made

-- The listeners of the socket: none, or a handler for each event, with the last dial perhaps waiting
-- for the list of users.
pub data Hears (on_signal on_hang_up on_users : List Listener) (made : ℕ) : Type 0 where
  deaf : on_signal ≡ [] → on_hang_up ≡ [] → on_users ≡ [] → Hears on_signal on_hang_up on_users made
  hearing :
      on_signal ≡ handler ∷ []
      → on_hang_up ≡ handler ∷ []
      → on_users ≡ handler ∷ []
      → Hears on_signal on_hang_up on_users made
  waiting :
      (n : ℕ)
      → on_signal ≡ handler ∷ []
      → on_hang_up ≡ handler ∷ []
      → on_users ≡ handler ∷ resolves n ∷ []
      → suc n ≡ made
      → Hears on_signal on_hang_up on_users made

-- What holds of a session between two events, and while an event is handled.
abbrev pub IsSound : Session → Type 0
IsSound s =
    Hears s.on_signal s.on_hang_up s.on_users s.dials_made × Timed s.dials_made s.settled s.timers

settle_one :
    (made : ℕ) (settled : ℕ → Bool) (timers : List ℕ) (n : ℕ)
    → n < made
    → Timed made settled timers
    → Timed made (update settled n true) timers
settle_one made settled timers n l t = record {
  left = λ m lm h. t.left m lm (ground arith);
  fresh = λ m lm. ground (arith, t.fresh m lm);
  known = t.known;
}

has_timer-filtered :
    (p : ℕ → Bool) (timers : List ℕ) (m : ℕ)
    → has_timer (filter p timers) m ≡ true
    → has_timer timers m ≡ true
has_timer-filtered p [] m h = h
has_timer-filtered p (t ∷ ts) m h = ground (arith, has_timer-filtered p ts m)

has_timer-appended :
    (timers : List ℕ) (n m : ℕ)
    → has_timer (timers ++ n ∷ []) m ≡ true
    → (has_timer timers m ≡ true) ⊎ (n ≡ m)
has_timer-appended [] n m h = inr (ground arith)
has_timer-appended (t ∷ ts) n m h = ground (arith, has_timer-appended ts n m)

has_timer-filter :
    (timers : List ℕ) (n m : ℕ)
    → n ≢ m
    → has_timer timers m ≡ true
    → has_timer (filter (λ t. not (t == n)) timers) m ≡ true
has_timer-filter [] n m ne h = h
has_timer-filter (t ∷ ts) n m ne h = ground (arith, has_timer-filter ts n m ne)

pub has_timer-append :
    (timers : List ℕ) (n m : ℕ)
    → (has_timer timers m ≡ true) ⊎ (n ≡ m)
    → has_timer (timers ++ n ∷ []) m ≡ true
has_timer-append [] n m h = ground arith
has_timer-append (t ∷ ts) n m h = ground (arith, has_timer-append ts n m)

-- A timer that fires settles its dial.
fire_one :
    (made : ℕ) (settled : ℕ → Bool) (timers : List ℕ) (n : ℕ)
    → n < made
    → Timed made settled timers
    → Timed made (update settled n true) (filter (λ t. not (t == n)) timers)
fire_one made settled timers n l t = record {
  left = λ m lm h. elim (Bool-cases (n == m)) [
    | inl same ↦ absurd (ground arith)
    | inr other ↦ has_timer-filter timers n m (ground arith) (t.left m lm (ground arith))
  ];
  fresh = λ m lm. ground (arith, t.fresh m lm);
  known = λ m h. t.known m (has_timer-filtered _ timers m h);
}

-- A new dial has its timer, or is settled at once.
make_one :
    (made : ℕ) (settled : ℕ → Bool) (timers : List ℕ)
    → Timed made settled timers
    → Timed (suc made) settled (timers ++ made ∷ [])
make_one made settled timers t = record {
  left = λ m lm h. has_timer-append timers made m (ground (arith, t.left m));
  fresh = λ m lm. t.fresh m (omega arith);
  known = λ m h. elim (has_timer-appended timers made m h) [
    | inl old ↦ omega (arith, t.known m old)
    | inr new ↦ omega (arith, new)
  ];
}

make_failed :
    (made : ℕ) (settled : ℕ → Bool) (timers : List ℕ)
    → Timed made settled timers
    → Timed (suc made) (update settled made true) timers
make_failed made settled timers t = record {
  left = λ m lm h. t.left m (ground arith) (ground arith);
  fresh = λ m lm. ground (arith, t.fresh m);
  known = λ m h. omega (arith, t.known m h);
}

module _ (env : Env) (call_id : String) where
  fire_app-IsSound :
      (f : App → App) (ls : List Listener) (s : Session)
      → IsSound s
      → IsSound (for_each (fire_app env call_id f) ls s)
  unfolding fire_app
  fire_app-IsSound f [] s h = h
  fire_app-IsSound f (handler ∷ ls) s h = fire_app-IsSound f ls (record s { app = f s.app }) h
  fire_app-IsSound f (resolves n ∷ ls) s h = fire_app-IsSound f ls s h

  fire_users-IsSound :
      (users : Users) (s : Session)
      → IsSound s
      → IsSound (for_each (fire_users env call_id users) s.on_users s)
  unfolding fire_users settle
  fire_users-IsSound users s (deaf a b c, t) =
      subst (λ ls. IsSound (for_each (fire_users env call_id users) ls s)) (sym c) (deaf a b c, t)
  fire_users-IsSound users s (hearing a b c, t) =
      subst (λ ls. IsSound (for_each (fire_users env call_id users) ls s)) (sym c)
        (hearing a b c, t)
  fire_users-IsSound users s (waiting n a b c d, t) =
      subst (λ ls. IsSound (for_each (fire_users env call_id users) ls s)) (sym c)
        (
          hearing a b (ap (filter (λ l. not (is_resolving n l))) c ∙ ground arith),
          settle_one s.dials_made s.settled s.timers n (omega (arith, d)) t,
        )

  timer-IsSound :
      (n : ℕ) (s : Session) → IsSound s → IsSound (handle_event env call_id (Event.timer_fired n) s)
  unfolding handle_event settle
  timer-IsSound n s (h, t) = elim (Bool-cases (has_timer s.timers n)) [
    | inl there ↦ rw there (h, fire_one s.dials_made s.settled s.timers n (t.known n there) t)
    | inr gone ↦ rw gone (h, t)
  ]

  handle_event-IsSound :
      (event : Event) (s : Session) → IsSound s → IsSound (handle_event env call_id event s)
  unfolding handle_event dial call listen remove_event_listeners hang_up_call settle
  handle_event-IsSound (Event.dial_called nickname (some thrown)) s h =
      (hearing refl refl refl, make_failed s.dials_made s.settled s.timers h.1)
  handle_event-IsSound (Event.dial_called nickname none) s h =
      (waiting s.dials_made refl refl refl refl, make_one s.dials_made s.settled s.timers h.1)
  handle_event-IsSound (Event.hang_up_called (some thrown)) s h = h
  handle_event-IsSound (Event.hang_up_called none) s h = (deaf refl refl refl, h.1)
  handle_event-IsSound (Event.users_received users) s h = fire_users-IsSound users s h
  handle_event-IsSound (Event.signal_received user_id data') s h =
      fire_app-IsSound (SocketHandler.handle_signal env user_id data') s.on_signal s h
  handle_event-IsSound (Event.hang_up_received user_id) s h =
      fire_app-IsSound (handle_hang_up env user_id) s.on_hang_up s h
  handle_event-IsSound (Event.timer_fired n) s h = timer-IsSound n s h

  pub step-IsSound : (event : Event) (s : Session) → IsSound s → IsSound (step env call_id event s)
  unfolding step react
  step-IsSound event s h = handle_event-IsSound event s h

  start-Timed : Timed 0 (λ n. false) []
  start-Timed = record {
    left = λ n l e. absurd (omega (arith, l));
    fresh = λ n l. refl;
    known = λ n e. cc;
  }

  -- After any history of dials, hang-ups, timers and messages of the server the socket has no
  -- listener, or one handler for each of its events and at most one dial, the last, that waits
  -- for the users; every dial that is not settled has its timer.
  pub run-IsSound : (app : App) (events : List Event) → IsSound (run env call_id events (start app))
  run-IsSound app events =
      for_each_keeps (step env call_id) IsSound step-IsSound events (start app)
        (deaf refl refl refl, start-Timed)
