-- ===== src/Reducers/Notifications.antt =====
-- src/client/reducers/notifications.ts and src/client/actions/NotifyActions.ts: notifications by
-- id. Making a notification takes an id from lodash, so the page passes through.
pub mod Entries
use Prim.Native.String
use model_lib.Prelude.{◌+◌, String, not, Option, none, some, [], filter, if◌then◌else◌, ◌=?◌}
use model_lib.Prelude.Dict.{Dict, put}
use model_lib.Actions
use model_lib.Actions.{Action, Notification, NotifyType, Error, rejected_error}
use model_lib.Page.{Page}
use model_lib.Lodash.{Lodash}

abbrev pub NotificationState : Type 0
NotificationState = Dict Notification

-- '' + err: Error.prototype.toString
unfoldable pub error_text : Error → String
error_text e =
    if e.name =? ""
    then e.message
    else if e.message =? ""
    then e.name
    else String.◌++◌ e.name (String.◌++◌ ": " e.message)

-- Object.keys(state).filter(key => key !== id).reduce(…, {})
unfoldable pub dismiss : NotificationState → String → NotificationState
dismiss state id = filter (λ e. not (e.0 =? id)) state

unfoldable pub handle_notifications : NotificationState → Action → NotificationState
handle_notifications state (Action.notify payload) = put state payload.id payload
handle_notifications state (Action.notify_dismiss id) = dismiss state id
handle_notifications state Action.notify_clear = []
handle_notifications state _ = state

module _ (lib : Lodash) where
  -- NotifyActions.notify, on a text with its places filled in
  unfoldable pub make_notification : NotifyType → String → Page → Notification × Page
  make_notification type message page = (
    record {
      id = lib.unique_id "notification" (page.unique_ids + 1);
      type = type;
      message = message;
    },
    record page { unique_ids = page.unique_ids + 1 },
  )

  -- An action that is rejected is replaced by an error notification.
  replace_rejected : Option Error → Action → Page → Action × Page
  replace_rejected none action page = (action, page)
  replace_rejected (some e) action page =
      let (notification, page') = make_notification NotifyType.error (error_text e) page in
      (Action.notify notification, page')

  -- the default export
  unfoldable pub notifications : NotificationState → Action → Page → NotificationState × Page
  unfolding replace_rejected
  notifications state action page =
      let (action', page') = replace_rejected (rejected_error action) action page in
      (handle_notifications state action', page')
