-- ===== src/Reducers/Messages.antt =====
-- src/client/reducers/messages.ts: the chat's list of messages, with the number of those that are
-- counted as unread.
pub mod Counting
use model_lib.Prelude.{ℕ, ◌+◌, String, true, none, List, [], ◌∷◌, ◌++◌, if◌then◌else◌}
use model_lib.Actions
use model_lib.Actions.{Action, Message, Notification}

pub record MessagesState : Type 0 where
  pub list : List Message
  pub count : ℕ

abbrev pub default_state : MessagesState
default_state = record { list = []; count = 0 }

-- `now` is the clock's reading, new Date().toLocaleString().
unfoldable pub convert_notification_to_message : Notification → String → Message
convert_notification_to_message payload now = record {
  user_id = "[PeerCalls]";
  message = payload.message;
  timestamp = now;
  image = none;
  system = true;
}

-- the default export
unfoldable pub messages : MessagesState → Action → String → MessagesState
messages state (Action.notify payload) now = record state {
  list = state.list ++ convert_notification_to_message payload now ∷ [];
}
messages state (Action.message_add payload) now = record {
  list = state.list ++ payload ∷ [];
  count = if payload.system then state.count else state.count + 1;
}
messages state _ now = state
