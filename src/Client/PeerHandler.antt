-- ===== src/Client/PeerHandler.antt =====
-- src/client/actions/PeerActions.ts: the events of a peer connection, and making one.
use model_lib.Prelude.{
  ◌+◌, String, Bool, true, false, Option, none, some, List, [], ◌∷◌, if◌then◌else◌, for_each, ◌=?◌,
}
use model_lib.Prelude.Dict.{get}
use model_lib.Actions.{Action, NotifyType, Peer, Track, MediaStream, Message, ReceivedMessage, me}
use model_lib.Page.{
  Page, Call, TrackHandler, SignalData, Listeners, SocketMessage, update, record_call, get_tracks,
}
use model_lib.Reducers.Streams.{StreamWithUrl, user_streams_or_new}
use model_lib.Store.{Env, App, dispatch}
use model_lib.Client.Notify.{notify}

-- A handler returns, or throws with what it had done by then.
pub data Handled : Type 0 where
  returned threw : App → Handled

-- What has been done, whether the handler returned or threw.
abbrev pub app_of : Handled → App
app_of (returned app) = app
app_of (threw app) = app

-- What comes after a call, unless it throws.
abbrev pub after : (App → Handled) → Handled → Handled
after next (returned app) = next app
after next (threw app) = threw app

-- The events of a simple-peer connection (constants.ts).
pub data PeerEvent : Type 0 where
  error connect close : PeerEvent
  signalled : SignalData → PeerEvent
  tracked : Track → MediaStream → PeerEvent
  received_text : String → PeerEvent

abbrev pub on_page : (Page → Page) → App → App
on_page f app = record app { page = f app.page }

abbrev pub listen : Peer → Listeners → App → App
listen peer l = on_page (λ page. record page { listeners = update page.listeners peer (some l) })

-- message.userId || user.id: the empty text is false too.
abbrev pub sender : Option String → String → String
sender none user_id = user_id
sender (some id) user_id = if id =? "" then user_id else id

-- The message that handleData adds.
unfoldable pub message_of : String → ReceivedMessage → String → Message
message_of user_id (ReceivedMessage.file id name data_url) now = record {
  user_id = sender id user_id;
  message = name;
  timestamp = now;
  image = some data_url;
  system = false;
}
message_of user_id (ReceivedMessage.other id payload) now = record {
  user_id = sender id user_id;
  message = payload;
  timestamp = now;
  image = none;
  system = false;
}

-- peer.addTrack(track, s.stream) for the tracks of a stream, where there is no peer
abbrev pub throw_at_track : List Track → Handled → App → Handled
throw_at_track [] rest app = rest
throw_at_track (t ∷ tracks) rest app = threw app

module _ (env : Env) where
  -- peer && peer.destroy()
  abbrev pub destroy : Option Peer → App → App
  destroy none app = app
  destroy (some peer) app = on_page (record_call (Call.peer_destroy peer)) app

  unfoldable pub handle_error : String → App → App
  handle_error user_id app =
      let noted = notify env NotifyType.error "A peer connection error occurred" [] app in
      dispatch env (Action.peer_remove user_id) (destroy (get noted.state.peers user_id) noted)

  unfoldable pub handle_signal : String → SignalData → App → App
  handle_signal user_id data' app =
      on_page (record_call (Call.socket_emit (SocketMessage.signal user_id data'))) app

  -- peer.addTrack(track, s.stream) for the tracks of a stream, up to the first one that throws
  unfoldable pub give_tracks : Peer → MediaStream → List Track → App → Handled
  give_tracks peer stream [] app = returned app
  give_tracks peer stream (t ∷ tracks) app =
      let rest =
        give_tracks peer stream tracks
          (on_page (record_call (Call.peer_add_track peer t stream)) app) in
      if env.add_track_returns app.page.calls peer t stream then rest else threw app

  -- The loops of handleConnect: a missing peer throws at the first track.
  unfoldable pub share_with : Option Peer → List StreamWithUrl → App → Handled
  unfolding give_tracks
  share_with none [] app = returned app
  share_with none (s ∷ streams) app =
      let rest = share_with none streams app in
      throw_at_track (get_tracks app.page s.stream) rest app
  share_with (some peer) [] app = returned app
  share_with (some peer) (s ∷ streams) app =
      after (share_with (some peer) streams)
        (give_tracks peer s.stream (get_tracks app.page s.stream) app)

  unfoldable pub handle_connect : String → App → Handled
  handle_connect user_id app =
      let noted = notify env NotifyType.warning "Peer connection established" [] app in
      share_with (get noted.state.peers user_id)
        (user_streams_or_new me (get noted.state.streams me)).streams noted

  unfoldable pub handle_track : String → Track → MediaStream → App → App
  handle_track user_id track stream app =
      let handler : TrackHandler = record { user_id = user_id; stream = stream } in
      on_page
        (λ page. record page {
          on_mute = update page.on_mute track (some handler);
          on_unmute = update page.on_unmute track (some handler);
        })
        app

  -- The browser calls track.onmute, track.onunmute.
  unfoldable pub fire_mute : Track → App → App
  fire_mute track app = elim (app.page.on_mute track) [
    | none ↦ app
    | some h ↦
        dispatch env
          (Action.stream_track_remove
            (record { user_id = h.user_id; stream = h.stream; track = track }))
          app
  ]

  unfoldable pub fire_unmute : Track → App → App
  fire_unmute track app = elim (app.page.on_unmute track) [
    | none ↦ app
    | some h ↦
        dispatch env
          (Action.stream_track_add
            (record { user_id = h.user_id; stream = h.stream; track = track }))
          app
  ]

  -- handleData, from what JSON.parse gives: `none` where it throws
  abbrev pub handle_parsed : String → App → Option ReceivedMessage → Handled
  handle_parsed user_id app none = threw app
  handle_parsed user_id app (some m) =
      returned (dispatch env (Action.message_add (message_of user_id m app.page.now)) app)

  unfoldable pub handle_data : String → String → App → Handled
  handle_data user_id text app = handle_parsed user_id app (env.json.parse text)

  -- dispatch(StreamActions.removeStream(user.id, s.stream))
  unfoldable pub remove_one : String → StreamWithUrl → App → App
  remove_one user_id s =
      dispatch env (Action.stream_remove (record { user_id = user_id; stream = s.stream }))

  unfoldable pub handle_close : String → App → App
  unfolding remove_one
  handle_close user_id app =
      let noted = notify env NotifyType.error "Peer connection closed" [] app in
      dispatch env (Action.peer_remove user_id) (
        for_each (remove_one user_id)
          (user_streams_or_new user_id (get noted.state.streams user_id)).streams noted)

  -- The part of createPeer that clears an old connection away.
  unfoldable pub clear_old : String → Option Peer → App → App
  clear_old user_id none app = app
  clear_old user_id (some old) app =
      dispatch env (Action.peer_remove user_id)
        (destroy (some old) (notify env NotifyType.info "Cleaning up old connection..." [] app))

  -- new Peer(…) with the handler's listeners
  unfoldable pub make_peer : String → Bool → Option MediaStream → Page → Page
  make_peer user_id initiator stream page =
      record_call (Call.new_peer page.peers_made initiator stream) (record page {
        peers_made = page.peers_made + 1;
        listeners = update page.listeners page.peers_made (
            some
              (record { user_id = user_id; on_error = true; on_connect = true; on_close = true }));
      })

  unfoldable pub create_peer : Bool → Option MediaStream → String → App → App
  unfolding clear_old make_peer
  create_peer initiator stream user_id app =
      let noted = notify env NotifyType.warning "Connecting to peer..." [] app in
      let cleared = clear_old user_id (get noted.state.peers user_id) noted in
      dispatch env (Action.peer_add user_id cleared.page.peers_made)
        (on_page (make_peer user_id initiator stream) cleared)

  -- The listeners of createPeer: those put on with `once` go before they are called, and an error
  -- that nobody listens to is thrown.
  unfoldable pub deliver : Peer → Listeners → PeerEvent → App → Handled
  deliver peer l PeerEvent.error app =
      if l.on_error
      then returned (handle_error l.user_id (listen peer (record l { on_error = false }) app))
      else threw app
  deliver peer l PeerEvent.connect app =
      if l.on_connect
      then handle_connect l.user_id (listen peer (record l { on_connect = false }) app)
      else returned app
  deliver peer l PeerEvent.close app =
      if l.on_close
      then returned (handle_close l.user_id (listen peer (record l { on_close = false }) app))
      else returned app
  deliver peer l (PeerEvent.signalled data') app = returned (handle_signal l.user_id data' app)
  deliver peer l (PeerEvent.tracked track stream) app =
      returned (handle_track l.user_id track stream app)
  deliver peer l (PeerEvent.received_text text) app = handle_data l.user_id text app

  unfoldable pub peer_event : Peer → PeerEvent → App → Handled
  unfolding deliver
  peer_event peer event app = elim (app.page.listeners peer) [
    | none ↦ returned app
    | some l ↦ deliver peer l event app
  ]
