-- ===== src/Components/Notifications.antt =====
-- src/client/components/Notifications.tsx: the notifications that are shown.
pub mod Newest
pub mod View
use model_lib.Prelude.{ℕ, ◌-◌, String, Option, List, map, length, drop, ◌==◌, if◌then◌else◌}
use mathlib.Core.List.{reverse}
use model_lib.Prelude.Dict.{get}
use model_lib.Actions.{Notification}
use model_lib.Reducers.Notifications.{NotificationState}

-- keys.slice(-max): all of them for a max of 0
unfoldable pub last_keys : ℕ → List String → List String
last_keys max keys = if max == 0 then keys else drop (length keys - max) keys

-- Notifications.render: what is shown, from the top
unfoldable pub render : ℕ → NotificationState → List (Option Notification)
render max notifications =
    map (get notifications) (reverse (last_keys max (map (λ e. e.0) notifications)))
