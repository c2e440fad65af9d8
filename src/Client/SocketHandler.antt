-- ===== src/Client/SocketHandler.antt =====
-- src/client/actions/SocketActions.ts: the messages from the server.
use model_lib.Prelude.{
  String, Bool, not, ◌&&◌, Option, none, some, List, [], ◌∷◌, for_each, filter, length, is_some,
  ◌=?◌,
}
use model_lib.Prelude.Dict.{Dict, get}
use model_lib.Actions.{Action, NotifyType, MediaStream}
use model_lib.Page.{Call, SignalData, record_call}
use model_lib.Store.{Env, App, dispatch}
use model_lib.Reducers.Peers.{PeersState}
use model_lib.Client.Notify.{notify}
use model_lib.Client.PeerHandler.{on_page, create_peer}

-- SocketEvent['users']
pub record Users : Type 0 where
  pub initiator : String
  pub peer_ids : List String
  pub nicknames : Dict String

module _ (env : Env) where
  -- debug(…) for a user with no peer
  unfoldable pub handle_signal : String → SignalData → App → App
  handle_signal user_id data' app = elim (get app.state.peers user_id) [
    | none ↦ app
    | some peer ↦ on_page (record_call (Call.peer_signal peer data')) app
  ]

  unfoldable pub handle_hang_up : String → App → App
  handle_hang_up user_id app = dispatch env (Action.nickname_remove user_id) app

  -- The peers to connect to: those that have no connection yet, except the local user.
  abbrev pub is_new : PeersState → String → Bool
  is_new peers id = not (is_some (get peers id)) && not (id =? env.user_id)

  unfoldable pub handle_users : Option MediaStream → Users → App → App
  handle_users stream users app =
      let noted =
        notify env NotifyType.info "Connected users: {0}"
          (env.number_text (length users.nicknames) ∷ []) app in
      for_each (create_peer env (users.initiator =? env.user_id) stream)
        (filter (is_new noted.state.peers) users.peer_ids)
        (dispatch env (Action.nicknames_set users.nicknames) noted)
