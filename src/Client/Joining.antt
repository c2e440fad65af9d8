-- ===== src/Client/Joining.antt =====
-- Who gets a connection when the server sends the list of users (handleUsers in
-- src/client/actions/SocketActions.ts, createPeer in src/client/actions/PeerActions.ts).
use model_lib.Prelude.{
  String, ◌≡◌, ◌≢◌, refl, ap, ◌∙◌, Bool, true, false, ◌&&◌, Option, none, some, List, [], ◌∷◌,
  arith, any, for_each, filter, length, is_some, ◌=?◌, eq_iff, inl, inr, Bool-cases,
}
use model_lib.Prelude.Dict.{Dict, get-put_self, get-put_ne, get-without_ne, get, put, without}
use model_lib.Actions.{Action, NotifyType, MediaStream, Peer, Notification}
use model_lib.Reducers.Peers.{PeersState, peers}
use model_lib.Store.{Env, App, dispatch}
use model_lib.Store.Dispatch.{dispatch-peers}
use model_lib.Client.Notify.{notify}
use model_lib.Client.PeerHandler.{destroy, clear_old, create_peer}
use model_lib.Client.SocketHandler.{Users, is_new, handle_users}

module _ (env : Env) where
  -- What the actions that are dispatched here do to the connections.
  dispatch-notify-peers :
      (n : Notification) (app : App)
      → (dispatch env (Action.notify n) app).state.peers ≡ app.state.peers
  unfolding peers
  dispatch-notify-peers n app = dispatch-peers env (Action.notify n) app

  pub notify-peers :
      (type : NotifyType) (text : String) (args : List String) (app : App)
      → (notify env type text args app).state.peers ≡ app.state.peers
  unfolding notify
  notify-peers type text args app = dispatch-notify-peers _ _

  pub dispatch_add-peers :
      (user_id : String) (peer : Peer) (app : App)
      → (dispatch env (Action.peer_add user_id peer) app).state.peers
        ≡ put app.state.peers user_id peer
  unfolding peers
  dispatch_add-peers user_id peer app = dispatch-peers env (Action.peer_add user_id peer) app

  dispatch_remove-peers :
      (user_id : String) (peer : Peer) (app : App)
      → get app.state.peers user_id ≡ some peer
      → (dispatch env (Action.peer_remove user_id) app).state.peers
        ≡ without app.state.peers user_id
  unfolding peers
  dispatch_remove-peers user_id peer app e =
      dispatch-peers env (Action.peer_remove user_id) app
      ∙ env.lodash.omit_own Peer app.state.peers user_id peer e

  -- Another user's connection is not touched by the clearing of an old one.
  get-clear_old :
      (user_id j : String) (o : Option Peer) (app : App)
      → get app.state.peers user_id ≡ o
      → user_id ≢ j
      → get (clear_old env user_id o app).state.peers j ≡ get app.state.peers j
  unfolding clear_old
  get-clear_old user_id j none app e ne = refl
  get-clear_old user_id j (some old) app e ne =
      let noted =
        destroy env (some old)
          (notify env NotifyType.info "Cleaning up old connection..." [] app) in
      let same : noted.state.peers ≡ app.state.peers = notify-peers _ _ _ app in
      ap (λ (d : PeersState). get d j)
        (dispatch_remove-peers user_id old noted (ap (λ (d : PeersState). get d user_id) same ∙ e)
          ∙ ap (λ (d : PeersState). without d user_id) same)
      ∙ get-without_ne app.state.peers user_id j ne

  -- createPeer gives the user a connection and leaves every other user's as it is.
  create_peer_self :
      (initiator : Bool) (stream : Option MediaStream) (user_id : String) (app : App)
      → is_some (get (create_peer env initiator stream user_id app).state.peers user_id) ≡ true
  unfolding create_peer
  create_peer_self initiator stream user_id app = ap is_some (
      ap (λ (d : PeersState). get d user_id) (dispatch_add-peers user_id _ _)
      ∙ get-put_self _ user_id _)

  create_peer_ne :
      (initiator : Bool) (stream : Option MediaStream) (user_id j : String) (app : App)
      → user_id ≢ j
      → get (create_peer env initiator stream user_id app).state.peers j ≡ get app.state.peers j
  unfolding create_peer
  create_peer_ne initiator stream user_id j app ne =
      let noted = notify env NotifyType.warning "Connecting to peer..." [] app in
      ap (λ (d : PeersState). get d j) (dispatch_add-peers user_id _ _)
      ∙ get-put_ne _ user_id j _ ne
      ∙ get-clear_old user_id j (get noted.state.peers user_id) noted refl ne
      ∙ ap (λ (d : PeersState). get d j) (notify-peers _ _ _ app)

  abbrev pub listed : List String → String → Bool
  listed ids j = any (λ id. id =? j) ids

  -- The loop over the users to connect to: a connection that is there stays, if its user is not
  -- among them.
  create_all_ne :
      (initiator : Bool) (stream : Option MediaStream) (ids : List String) (j : String) (app : App)
      → listed ids j ≡ false
      → get (for_each (create_peer env initiator stream) ids app).state.peers j
        ≡ get app.state.peers j
  create_all_ne initiator stream [] j app h = refl
  create_all_ne initiator stream (id ∷ ids) j app h =
      create_all_ne initiator stream ids j (create_peer env initiator stream id app) (ground arith)
      ∙ create_peer_ne initiator stream id j app (ground (arith, eq_iff id j))

  create_all_keeps :
      (initiator : Bool) (stream : Option MediaStream) (ids : List String) (j : String) (app : App)
      → is_some (get app.state.peers j) ≡ true
      → is_some (get (for_each (create_peer env initiator stream) ids app).state.peers j) ≡ true
  create_all_keeps initiator stream [] j app h = h
  create_all_keeps initiator stream (id ∷ ids) j app h =
      create_all_keeps initiator stream ids j (create_peer env initiator stream id app) (
        ground (
          arith,
          create_peer_self initiator stream id app,
          create_peer_ne initiator stream id j app,
          eq_iff id j,
        ))

  create_all_listed :
      (initiator : Bool) (stream : Option MediaStream) (ids : List String) (j : String) (app : App)
      → listed ids j ≡ true
      → is_some (get (for_each (create_peer env initiator stream) ids app).state.peers j) ≡ true
  create_all_listed initiator stream [] j app h = cc
  create_all_listed initiator stream (id ∷ ids) j app h = ground (
    arith,
    create_all_listed initiator stream ids j (create_peer env initiator stream id app),
    create_all_keeps initiator stream ids j (create_peer env initiator stream id app),
    create_peer_self initiator stream id app,
    eq_iff id j,
  )

  listed-filter :
      (p : String → Bool) (ids : List String) (j : String)
      → listed (filter p ids) j ≡ (listed ids j && p j)
  listed-filter p [] j = refl
  listed-filter p (id ∷ ids) j = ground (arith, listed-filter p ids j, eq_iff id j)

  before_loop-peers :
      (a : Dict String) (app : App)
      → (dispatch env (Action.nicknames_set a) app).state.peers ≡ app.state.peers
  unfolding peers
  before_loop-peers a app = dispatch-peers env (Action.nicknames_set a) app

  -- The users that the loop of handleUsers runs over, and the client before the loop.
  abbrev noted : Users → App → App
  noted users app =
      notify env NotifyType.info "Connected users: {0}"
        (env.number_text (length users.nicknames) ∷ []) app

  abbrev to_connect : Users → App → List String
  to_connect users app = filter (is_new env (noted users app).state.peers) users.peer_ids

  listed-to_connect :
      (users : Users) (app : App) (j : String)
      → listed (to_connect users app) j ≡ (listed users.peer_ids j && is_new env app.state.peers j)
  listed-to_connect users app j =
      listed-filter _ users.peer_ids j
      ∙ ap (λ (d : PeersState). listed users.peer_ids j && is_new env d j) (notify-peers _ _ _ app)

  before_loop :
      (users : Users) (app : App)
      → (dispatch env (Action.nicknames_set users.nicknames) (noted users app)).state.peers
        ≡ app.state.peers
  before_loop users app =
      before_loop-peers users.nicknames (noted users app) ∙ notify-peers _ _ _ app

  -- After the server's list of users, a user has the connection of before unless the list has
  -- the user, the user is not the local one, and there was no connection.
  pub handle_users_ne :
      (stream : Option MediaStream) (users : Users) (app : App) (j : String)
      → (listed users.peer_ids j && is_new env app.state.peers j) ≡ false
      → get (handle_users env stream users app).state.peers j ≡ get app.state.peers j
  unfolding handle_users
  handle_users_ne stream users app j h =
      create_all_ne _ stream (to_connect users app) j _ (listed-to_connect users app j ∙ h)
      ∙ ap (λ (d : PeersState). get d j) (before_loop users app)

  -- After the server's list of users, every user of the list other than the local one has a
  -- connection.
  pub handle_users_connects :
      (stream : Option MediaStream) (users : Users) (app : App) (j : String)
      → listed users.peer_ids j ≡ true
      → (j =? env.user_id) ≡ false
      → is_some (get (handle_users env stream users app).state.peers j) ≡ true
  unfolding handle_users
  handle_users_connects stream users app j l ne =
      elim (Bool-cases (is_some (get app.state.peers j))) [
        | inl there ↦
            create_all_keeps _ stream (to_connect users app) j _
              (ap (λ (d : PeersState). is_some (get d j)) (before_loop users app) ∙ there)
        | inr missing ↦
            create_all_listed _ stream (to_connect users app) j _
              (listed-to_connect users app j ∙ ground arith)
      ]
