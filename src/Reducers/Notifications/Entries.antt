-- ===== src/Reducers/Notifications/Entries.antt =====
-- Notifications are filed under fresh ids, the latest last, and a dismissal takes away one
-- (src/client/reducers/notifications.ts).
use model_lib.Prelude.{
  ℕ, ◌+◌, ◌≤◌, String, ◌≡◌, ◌≢◌, refl, sym, ◌∙◌, not, none, some, [], ◌∷◌, ◌++◌, arith,
  if◌then◌else◌, ◌=?◌, eq_iff, All, All-filter, All-map, Bool-cases, Option-cases, inl, inr,
}
use model_lib.Prelude.Dict.{get, put}
use model_lib.Actions.{Action, Notification, NotifyType, Error, error, rejected_error}
use model_lib.Page.{Page}
use model_lib.Lodash.{Lodash}
use model_lib.Reducers.Notifications.{
  NotificationState, error_text, dismiss, handle_notifications, make_notification, notifications,
  replace_rejected,
}

put_of_get-none :
    (state : NotificationState) (k : String) (n : Notification)
    → get state k ≡ none
    → put state k n ≡ state ++ (k, n) ∷ []
unfolding get put
put_of_get-none [] k n h = refl
put_of_get-none (e ∷ rest) k n h = ground (arith, put_of_get-none rest k n)

-- A dismissed notification is gone, and every other one stays.
pub get-dismiss :
    (state : NotificationState) (id j : String)
    → get (dismiss state id) j ≡ (if id =? j then none else get state j)
unfolding get dismiss
get-dismiss [] id j = ground arith
get-dismiss (e ∷ rest) id j =
    ground (arith, get-dismiss rest id j, eq_iff e.0 id, eq_iff e.0 j, eq_iff id j)

module _ (lib : Lodash) where
  -- The entry's key is the notification's id, which uniqueId gave at one of the calls so far.
  pub record IsFiled (calls : ℕ) (e : String × Notification) : Type 0 where
    pub keyed : e.0 ≡ e.1.id
    pub call : ℕ
    pub past : call ≤ calls
    pub made : e.0 ≡ lib.unique_id "notification" call

  abbrev pub AllFiled : ℕ → NotificationState → Type 0
  AllFiled calls state = All (IsFiled calls) state

  IsFiled-mono : (c : ℕ) (e : String × Notification) → IsFiled c e → IsFiled (c + 1) e
  IsFiled-mono c e h = record { keyed = h.keyed; call = h.call; past = omega arith; made = h.made }

  pub AllFiled-mono :
      (c : ℕ) (state : NotificationState) → AllFiled c state → AllFiled (c + 1) state
  AllFiled-mono c state h = All-map (IsFiled c) (IsFiled (c + 1)) (IsFiled-mono c) state h

  -- No entry has the id of the next call.
  get_next :
      (calls : ℕ) (state : NotificationState)
      → AllFiled calls state
      → get state (lib.unique_id "notification" (calls + 1)) ≡ none
  unfolding get
  get_next calls [] h = refl
  get_next calls (e ∷ rest) h =
      let next = lib.unique_id "notification" (calls + 1) in
      let fresh : e.0 ≢ next = λ same. absurd (
        omega (
          arith,
          lib.unique_id_injective "notification" h.0.call (calls + 1) (sym h.0.made ∙ same),
          h.0.past,
        )) in
      ground (arith, eq_iff e.0 next, get_next calls rest h.1)

  -- The entry of a new notification.
  abbrev pub new_entry : NotifyType → String → Page → String × Notification
  new_entry type message page = let n = (make_notification lib type message page).0 in (n.id, n)

  -- A new notification is put behind all others and replaces none.
  pub handle_notifications-make_notification :
      (state : NotificationState) (type : NotifyType) (message : String) (page : Page)
      → AllFiled page.unique_ids state
      → handle_notifications state (Action.notify (make_notification lib type message page).0)
        ≡ state ++ new_entry type message page ∷ []
  unfolding handle_notifications make_notification
  handle_notifications-make_notification state type message page h =
      put_of_get-none state _ _ (get_next page.unique_ids state h)

  pub new_entry-IsFiled :
      (type : NotifyType) (message : String) (page : Page)
      → IsFiled (page.unique_ids + 1) (new_entry type message page)
  unfolding make_notification
  new_entry-IsFiled type message page = record {
    keyed = refl;
    call = page.unique_ids + 1;
    past = omega arith;
    made = refl;
  }

  -- A rejected action, of whatever kind, adds an error notification with the text of its error
  -- behind all others and replaces none, if every notification is filed under its own id and
  -- this page gave the id.
  pub notifications_rejected :
      (state : NotificationState) (action : Action) (e : Error) (page : Page)
      → AllFiled page.unique_ids state
      → rejected_error action ≡ some e
      → (notifications lib state action page).0 ≡ state ++ new_entry error (error_text e) page ∷ []
  unfolding notifications
  notifications_rejected state action e page h r =
      rw (r, notifications, replace_rejected)
        (handle_notifications-make_notification state error (error_text e) page h)

  -- Of a NOTIFY action: its notification was made on this page.
  abbrev pub IsMade : ℕ → Action → Type 0
  IsMade calls (Action.notify n) = IsFiled calls (n.id, n)
  IsMade calls _ = Unit

  put-AllFiled :
      (calls : ℕ) (state : NotificationState) (n : Notification)
      → AllFiled calls state
      → IsFiled calls (n.id, n)
      → AllFiled calls (put state n.id n)
  unfolding put
  put-AllFiled calls [] n h f = (f, tt)
  put-AllFiled calls (e ∷ rest) n h f = elim (Bool-cases (e.0 =? n.id)) [
    | inl same ↦ rw same (
      record {
        keyed = (eq_iff e.0 n.id).0 same;
        call = h.0.call;
        past = h.0.past;
        made = h.0.made;
      },
      h.1,
    )
    | inr other ↦ rw other (h.0, put-AllFiled calls rest n h.1 f)
  ]

  handle_notifications-AllFiled :
      (calls : ℕ) (state : NotificationState) (action : Action)
      → IsMade calls action
      → AllFiled calls state
      → AllFiled calls (handle_notifications state action)
  unfolding handle_notifications dismiss
  handle_notifications-AllFiled calls state (Action.notify n) m h = put-AllFiled calls state n h m
  handle_notifications-AllFiled calls state (Action.notify_dismiss id) m h =
      All-filter (IsFiled calls) (λ e. not (e.0 =? id)) state h
  handle_notifications-AllFiled calls state Action.notify_clear m h = tt
  handle_notifications-AllFiled calls state _ m h = h

  -- Under every action each notification stays filed under its own id, which one of the calls of
  -- uniqueId so far gave; a NOTIFY action must carry a notification that was made on this page.
  pub notifications-AllFiled :
      (state : NotificationState) (action : Action) (page : Page)
      → IsMade page.unique_ids action
      → AllFiled page.unique_ids state
      → AllFiled
          (notifications lib state action page).1.unique_ids
          (notifications lib state action page).0
  unfolding notifications
  notifications-AllFiled state action page m h = elim (Option-cases (rejected_error action)) [
    | inl fine ↦
        rw (fine, notifications, replace_rejected)
          (handle_notifications-AllFiled page.unique_ids state action m h)
    | inr (e, r) ↦
        rw (r, notifications, replace_rejected)
          (unfold make_notification in
            handle_notifications-AllFiled (page.unique_ids + 1) state _
              (unfold make_notification in new_entry-IsFiled error (error_text e) page)
              (AllFiled-mono page.unique_ids state h))
  ]

  pub notifications-listeners :
      (state : NotificationState) (action : Action) (page : Page)
      → (notifications lib state action page).1.listeners ≡ page.listeners
  unfolding notifications make_notification
  notifications-listeners state action page = elim (Option-cases (rejected_error action)) [
    | inl fine ↦ rw (fine, notifications, replace_rejected) refl
    | inr (e, r) ↦ rw (r, notifications, replace_rejected) refl
  ]

  pub notifications-tracks :
      (state : NotificationState) (action : Action) (page : Page)
      → (notifications lib state action page).1.tracks ≡ page.tracks
  unfolding notifications make_notification
  notifications-tracks state action page = elim (Option-cases (rejected_error action)) [
    | inl fine ↦ rw (fine, notifications, replace_rejected) refl
    | inr (e, r) ↦ rw (r, notifications, replace_rejected) refl
  ]
