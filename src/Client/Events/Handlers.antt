-- ===== src/Client/Events/Handlers.antt =====
-- Every handler keeps the streams well formed (src/client/actions/PeerActions.ts,
-- src/client/actions/SocketActions.ts).
use model_lib.Prelude.{
  String, sym, subst, Bool, Option, none, some, ◌=?◌, List, [], ◌∷◌, for_each_keeps, Bool-cases,
  inl, inr, Option-cases, length, filter,
}
use model_lib.Prelude.Dict.{get}
use model_lib.Actions.{Action, MediaStream, Peer, Track, ReceivedMessage, NotifyType}
use model_lib.Page.{Call, record_call, get_tracks, SignalData, Listeners}
use model_lib.Reducers.Streams.{StreamWithUrl, user_streams_or_new}
use model_lib.Reducers.Streams.Invariant.{IsWellFormed, HasPlainIds, streams-IsWellFormed}
use model_lib.Store.{Env, App, dispatch}
use model_lib.Store.Dispatch.{dispatch-streams, page_shared}
use model_lib.Client.Notify.{notify}
use model_lib.Client.PeerHandler
use model_lib.Client.PeerHandler.{
  Handled, returned, threw, app_of, PeerEvent, on_page, destroy, handle_error, handle_connect,
  throw_at_track, after, give_tracks, share_with, handle_track, fire_mute, fire_unmute, handle_data,
  handle_parsed, remove_one, handle_close, clear_old, create_peer, deliver, peer_event,
}
use model_lib.Client.SocketHandler
use model_lib.Client.SocketHandler.{Users, handle_users, handle_hang_up}

module _ (env : Env) where
  -- The streams of the client are well formed.
  abbrev pub IsFine : App → Type 0
  IsFine app = IsWellFormed app.state.streams

  pub dispatch-IsFine :
      (a : Action) (app : App) → HasPlainIds a → IsFine app → IsFine (dispatch env a app)
  dispatch-IsFine a app plain w =
      subst IsWellFormed (sym (dispatch-streams env a app))
        (streams-IsWellFormed env.lodash app.state.streams a (page_shared env a app) plain w)

  pub notify-IsFine :
      (type : NotifyType) (text : String) (args : List String) (app : App)
      → IsFine app
      → IsFine (notify env type text args app)
  unfolding notify
  notify-IsFine type text args app w = dispatch-IsFine (Action.notify _) _ tt w

  pub destroy-IsFine : (o : Option Peer) (app : App) → IsFine app → IsFine (destroy env o app)
  destroy-IsFine none app w = w
  destroy-IsFine (some peer) app w = w

  pub handle_error-IsFine :
      (user_id : String) (app : App) → IsFine app → IsFine (handle_error env user_id app)
  unfolding handle_error
  handle_error-IsFine user_id app w =
      dispatch-IsFine (Action.peer_remove user_id) _ tt
        (destroy-IsFine _ _ (notify-IsFine NotifyType.error _ _ app w))

  pub handle_close-IsFine :
      (user_id : String) (app : App) → IsFine app → IsFine (handle_close env user_id app)
  unfolding handle_close remove_one
  handle_close-IsFine user_id app w = dispatch-IsFine (Action.peer_remove user_id) _ tt (
      for_each_keeps (remove_one env user_id) IsFine
        (λ s x h. dispatch-IsFine (Action.stream_remove _) x tt h)
        (user_streams_or_new user_id (
          get (notify env NotifyType.error "Peer connection closed" [] app).state.streams
            user_id)).streams
        _ (notify-IsFine NotifyType.error _ _ app w))

  pub throw_at_track-IsFine :
      (ts : List Track) (rest : Handled) (app : App)
      → IsFine app
      → IsFine (app_of rest)
      → IsFine (app_of (throw_at_track ts rest app))
  throw_at_track-IsFine [] rest app w r = r
  throw_at_track-IsFine (t ∷ ts) rest app w r = w

  give_tracks-IsFine :
      (peer : Peer) (stream : MediaStream) (ts : List Track) (app : App)
      → IsFine app
      → IsFine (app_of (give_tracks env peer stream ts app))
  unfolding give_tracks
  give_tracks-IsFine peer stream [] app w = w
  give_tracks-IsFine peer stream (t ∷ ts) app w =
      elim (Bool-cases (env.add_track_returns app.page.calls peer t stream)) [
        | inl taken ↦ rw taken (
            give_tracks-IsFine peer stream ts
              (on_page (record_call (Call.peer_add_track peer t stream)) app) w)
        | inr refused ↦ rw refused w
      ]

  after-IsFine :
      (next : App → Handled) (h : Handled)
      → ((app : App) → IsFine app → IsFine (app_of (next app)))
      → IsFine (app_of h)
      → IsFine (app_of (after next h))
  after-IsFine next (returned app) keep w = keep app w
  after-IsFine next (threw app) keep w = w

  pub share_with-IsFine :
      (o : Option Peer) (ss : List StreamWithUrl) (app : App)
      → IsFine app
      → IsFine (app_of (share_with env o ss app))
  unfolding share_with
  share_with-IsFine none [] app w = w
  share_with-IsFine none (s ∷ ss) app w =
      throw_at_track-IsFine (get_tracks app.page s.stream) (share_with env none ss app) app w
        (share_with-IsFine none ss app w)
  share_with-IsFine (some peer) [] app w = w
  share_with-IsFine (some peer) (s ∷ ss) app w =
      after-IsFine (share_with env (some peer) ss)
        (give_tracks env peer s.stream (get_tracks app.page s.stream) app)
        (share_with-IsFine (some peer) ss)
        (give_tracks-IsFine peer s.stream (get_tracks app.page s.stream) app w)

  pub handle_connect-IsFine :
      (user_id : String) (app : App) → IsFine app → IsFine (app_of (handle_connect env user_id app))
  unfolding handle_connect
  handle_connect-IsFine user_id app w =
      share_with-IsFine _ _ _ (notify-IsFine NotifyType.warning _ _ app w)

  pub handle_parsed-IsFine :
      (user_id : String) (o : Option ReceivedMessage) (app : App)
      → IsFine app
      → IsFine (app_of (handle_parsed env user_id app o))
  handle_parsed-IsFine user_id none app w = w
  handle_parsed-IsFine user_id (some m) app w = dispatch-IsFine (Action.message_add _) app tt w

  pub deliver-IsFine :
      (peer : Peer) (l : Listeners) (e : PeerEvent) (app : App)
      → IsFine app
      → IsFine (app_of (deliver env peer l e app))
  unfolding deliver handle_data PeerHandler.handle_signal handle_track
  deliver-IsFine peer l PeerEvent.error app w = elim (Bool-cases l.on_error) [
    | inl on ↦ rw on (handle_error-IsFine l.user_id _ w)
    | inr off ↦ rw off w
  ]
  deliver-IsFine peer l PeerEvent.connect app w = elim (Bool-cases l.on_connect) [
    | inl on ↦ rw on (handle_connect-IsFine l.user_id _ w)
    | inr off ↦ rw off w
  ]
  deliver-IsFine peer l PeerEvent.close app w = elim (Bool-cases l.on_close) [
    | inl on ↦ rw on (handle_close-IsFine l.user_id _ w)
    | inr off ↦ rw off w
  ]
  deliver-IsFine peer l (PeerEvent.signalled data') app w = w
  deliver-IsFine peer l (PeerEvent.tracked track stream) app w = w
  deliver-IsFine peer l (PeerEvent.received_text text) app w =
      handle_parsed-IsFine l.user_id (env.json.parse text) app w

  pub peer_event-IsFine :
      (peer : Peer) (e : PeerEvent) (app : App)
      → IsFine app
      → IsFine (app_of (peer_event env peer e app))
  unfolding peer_event
  peer_event-IsFine peer e app w = elim (Option-cases (app.page.listeners peer)) [
    | inl missing ↦ rw (missing, peer_event) w
    | inr (l, there) ↦ rw (there, peer_event) (deliver-IsFine peer l e app w)
  ]

  pub clear_old-IsFine :
      (user_id : String) (o : Option Peer) (app : App)
      → IsFine app
      → IsFine (clear_old env user_id o app)
  unfolding clear_old
  clear_old-IsFine user_id none app w = w
  clear_old-IsFine user_id (some old) app w =
      dispatch-IsFine (Action.peer_remove user_id) _ tt (notify-IsFine NotifyType.info _ _ app w)

  pub create_peer-IsFine :
      (initiator : Bool) (stream : Option MediaStream) (user_id : String) (app : App)
      → IsFine app
      → IsFine (create_peer env initiator stream user_id app)
  unfolding create_peer
  create_peer-IsFine initiator stream user_id app w =
      dispatch-IsFine (Action.peer_add user_id _) _ tt
        (clear_old-IsFine user_id _ _ (notify-IsFine NotifyType.warning _ _ app w))

  pub fire_mute-IsFine : (t : Track) (app : App) → IsFine app → IsFine (fire_mute env t app)
  unfolding fire_mute
  fire_mute-IsFine t app w = elim (Option-cases (app.page.on_mute t)) [
    | inl missing ↦ rw (missing, fire_mute) w
    | inr (h, there) ↦
        rw (there, fire_mute) (dispatch-IsFine (Action.stream_track_remove _) app tt w)
  ]

  pub fire_unmute-IsFine : (t : Track) (app : App) → IsFine app → IsFine (fire_unmute env t app)
  unfolding fire_unmute
  fire_unmute-IsFine t app w = elim (Option-cases (app.page.on_unmute t)) [
    | inl missing ↦ rw (missing, fire_unmute) w
    | inr (h, there) ↦
        rw (there, fire_unmute) (dispatch-IsFine (Action.stream_track_add _) app tt w)
  ]

  pub signal-IsFine :
      (user_id : String) (data' : SignalData) (app : App)
      → IsFine app
      → IsFine (SocketHandler.handle_signal env user_id data' app)
  unfolding SocketHandler.handle_signal
  signal-IsFine user_id data' app w = elim (Option-cases (get app.state.peers user_id)) [
    | inl missing ↦ rw (missing, SocketHandler.handle_signal) w
    | inr (peer, there) ↦ rw (there, SocketHandler.handle_signal) w
  ]

  pub handle_users-IsFine :
      (stream : Option MediaStream) (users : Users) (app : App)
      → IsFine app
      → IsFine (handle_users env stream users app)
  unfolding handle_users
  handle_users-IsFine stream users app w =
      let noted =
        notify env NotifyType.info "Connected users: {0}"
          (env.number_text (length users.nicknames) ∷ []) app in
      for_each_keeps (create_peer env (users.initiator =? env.user_id) stream) IsFine
        (create_peer-IsFine (users.initiator =? env.user_id) stream)
        (filter (SocketHandler.is_new env noted.state.peers) users.peer_ids)
        (dispatch env (Action.nicknames_set users.nicknames) noted)
        (dispatch-IsFine (Action.nicknames_set users.nicknames) noted tt
          (notify-IsFine NotifyType.info _ _ app w))
