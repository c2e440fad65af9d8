-- ===== src/Components/Notifications/View.antt =====
-- src/client/components/Notifications.tsx: the notifications' elements. The elements of
-- react-transition-group, which show that one comes or goes, are left out.
use model_lib.Prelude.{ℕ, String, true, Option, none, some, List, [], ◌∷◌, map}
use model_lib.Actions.{Notification, NotifyType, info, warning, error}
use model_lib.Reducers.Notifications.{NotificationState}
use model_lib.Components.Html.{class, has, Html, text, el, class_name}
use model_lib.Components.Notifications.{render}

abbrev pub type_name : NotifyType → String
type_name info = "info"
type_name warning = "warning"
type_name error = "error"

-- Notification
unfoldable pub notification_html : Notification → Html
notification_html notification =
    el "div" (class ((type_name notification.type, true) ∷ ("notification", true) ∷ []) ∷ [])
      (text notification.message ∷ [])

-- A key that has no notification would throw.
abbrev pub present : List (Option Notification) → List Notification
present [] = []
present (none ∷ rest) = present rest
present (some n ∷ rest) = n ∷ present rest

unfoldable pub notifications_html : ℕ → NotificationState → Html
notifications_html max notifications =
    el "div" (class_name "notifications" ∷ has "tabIndex" "0" ∷ [])
      (map notification_html (present (render max notifications)))
