-- ===== src/Client/Chat.antt =====
-- Sending a message to all peers (sendMessage in src/client/actions/PeerActions.ts).
use Prim.Native.String
pub mod Reaching
use model_lib.Prelude.{ℕ, String, Bool, true, false, not, none, some, List, [], ◌∷◌, if◌then◌else◌}
use model_lib.Client.Notify.{notify}
use model_lib.Actions.{Action, Message, NotifyType, Peer, PeerMessage, me}
use model_lib.Page.{Page, Call, record_call}
use model_lib.Store.{Env, App, dispatch}
use model_lib.Client.PeerHandler.{Handled, returned, threw, after, on_page}

-- The message that the local user sees.
unfoldable pub own_message : PeerMessage → String → Message
own_message (PeerMessage.file name size type data_url) now = record {
  user_id = me;
  message = String.◌++◌ "Send file: \"" (String.◌++◌ name "\" to all peers");
  timestamp = now;
  image = some data_url;
  system = false;
}
own_message (PeerMessage.text payload) now = record {
  user_id = me;
  message = payload;
  timestamp = now;
  image = none;
  system = false;
}

module _ (env : Env) where
  -- Whether peer.send returns.
  unfoldable pub can_send : Page → Peer → Bool
  can_send page peer = env.send_returns (page.listeners peer)

  unfoldable pub send_data : PeerMessage → Peer → App → Handled
  send_data message peer app =
      if can_send app.page peer
      then returned (on_page (record_call (Call.peer_send peer (env.json.stringify message))) app)
      else threw app

  -- forEach over the peers, which the first send that throws ends
  unfoldable pub send_all : PeerMessage → List (String × Peer) → App → Handled
  unfolding send_data
  send_all message [] app = returned app
  send_all message (e ∷ ps) app = after (send_all message ps) (send_data message e.1 app)

  -- `peers` is read before the message is added.
  unfoldable pub send_message : PeerMessage → App → Handled
  unfolding send_all
  send_message message app =
      send_all message (env.lodash.entries Peer app.state.peers)
        (dispatch env (Action.message_add (own_message message app.page.now)) app)

  -- sendFile, up to the reading of the file, by whether the browser has a FileReader; and what
  -- follows once the file is read.
  unfoldable pub send_file : (has_file_reader : Bool) → App → App
  send_file true app = app
  send_file false app =
      notify env NotifyType.error "File API is not supported by your browser" [] app

  unfoldable pub file_read : (name : String) (size : ℕ) (type data_url : String) → App → Handled
  file_read name size type data_url app =
      send_message (PeerMessage.file name size type data_url) app
