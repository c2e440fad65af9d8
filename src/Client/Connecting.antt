-- ===== src/Client/Connecting.antt =====
-- src/client/actions/CallActions.ts, init: the store is told when the connection to the server opens
-- and closes, and what the server's messages are to the listeners of a call.
pub mod Following
use model_lib.Prelude.{String, Option, none, some, [], ◌=?◌, if◌then◌else◌}
use model_lib.Actions.{Action, NotifyType}
use model_lib.Page.{SignalData}
use model_lib.Store.{Env, App, dispatch}
use model_lib.Client.Notify.{notify}
use model_lib.Client.SocketHandler.{Users}
use model_lib.Client.Calls.{Event}

-- The payloads of the server's messages, as JSON.parse gives them.
pub record Payloads : Type 0 where
  pub users : String → Users
  pub signal : String → String × SignalData
  pub hang_up : String → String

-- The event of the socket that a message is, by its type (src/client/constants.ts); a ping has no
-- listener.
unfoldable pub event_of : Payloads → (type payload : String) → Option Event
event_of payloads type payload =
    if type =? "users"
    then some (Event.users_received (payloads.users payload))
    else if type =? "signal"
    then some (Event.signal_received (payloads.signal payload).0 (payloads.signal payload).1)
    else if type =? "hangUp"
    then some (Event.hang_up_received (payloads.hang_up payload))
    else none

module _ (env : Env) where
  -- The listeners of init.
  unfoldable pub on_connect : App → App
  on_connect app =
      dispatch env Action.socket_connected
        (notify env NotifyType.warning "Connected to server socket" [] app)

  unfoldable pub on_disconnect : App → App
  on_disconnect app =
      dispatch env Action.socket_disconnected
        (notify env NotifyType.error "Server socket disconnected" [] app)
