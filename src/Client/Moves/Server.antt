-- ===== src/Client/Moves/Server.antt =====
-- What the server's messages, the dials and the hanging up do, as moves of the client
-- (src/client/actions/SocketActions.ts, src/client/actions/CallActions.ts).
use model_lib.Prelude.{
  String, refl, Bool, Option, none, some, List, [], ◌∷◌, ◌++◌, true, for_each, filter, length, any,
  ◌==◌, Bool-cases, Option-cases, inl, inr, ◌=?◌, All, All-filter,
}
use model_lib.Prelude.Dict.{get}
use model_lib.Lodash.{IsPlainKey}
use model_lib.Actions.{Action, NotifyType, Peer, Track, MediaStream, PeerMessage, pending}
use model_lib.Page.{Page, Call, SignalData, SocketMessage, Listeners, update}
use model_lib.Page.Turning.{IsOther, Turns, Turns-trans, same_Turns}
use model_lib.Store.{Env, App, dispatch}
use model_lib.Client.Notify.{notify}
use model_lib.Client.PeerHandler.{
  app_of, on_page, fire_mute, fire_unmute, clear_old, make_peer, create_peer,
}
use model_lib.Client.SocketHandler
use model_lib.Client.SocketHandler.{Users, is_new, handle_users, handle_hang_up}
use model_lib.Client.Chat.{own_message, send_message}
use model_lib.Client.Chat.Reaching.{app_of-ended, sends, reached}
use model_lib.Client.Messaging.{told, send_message-ended}
use model_lib.Client.Calls.{
  Session, Listener, handler, resolves, settle, remove_event_listeners, react, listen, call, dial,
  hang_up, hang_up_call, fire_users, fire_app, Event, handle_event, step,
}
use model_lib.Client.Moves.{
  Moves, stays, notes, then_Moves, act_Moves, turn_Moves, call_Moves, for_each-Moves, loop-Moves,
}
use model_lib.Client.Moves.Handlers.{listen-Turns, destroy-Moves}

module _ (env : Env) where
  pub fire_mute-Moves : (t : Track) (app : App) → Moves env app (fire_mute env t app)
  unfolding fire_mute
  fire_mute-Moves t app = elim (Option-cases (app.page.on_mute t)) [
    | inl missing ↦ rw (missing, fire_mute) (stays app)
    | inr (h, there) ↦ rw (there, fire_mute) (act_Moves env (Action.stream_track_remove _) app tt)
  ]

  pub fire_unmute-Moves : (t : Track) (app : App) → Moves env app (fire_unmute env t app)
  unfolding fire_unmute
  fire_unmute-Moves t app = elim (Option-cases (app.page.on_unmute t)) [
    | inl missing ↦ rw (missing, fire_unmute) (stays app)
    | inr (h, there) ↦ rw (there, fire_unmute) (act_Moves env (Action.stream_track_add _) app tt)
  ]

  pub send_message-Moves :
      (m : PeerMessage) (app : App) → Moves env app (app_of (send_message env m app))
  send_message-Moves m app =
      let noted = dispatch env (Action.message_add (own_message m app.page.now)) app in
      let cs = noted.page.calls ++ sends env m (reached env app.page app.state.peers) in
      let call_all : Page → Page = λ page. record page { calls = cs } in
      rw (send_message-ended env m app, app_of-ended _ (told env m app))
        (then_Moves env app noted _ (act_Moves env (Action.message_add _) app tt)
          (turn_Moves env call_all noted (same_Turns noted.page (call_all noted.page) refl refl)))

  clear_old-Moves :
      (user_id : String) (o : Option Peer) (app : App)
      → IsOther user_id
      → Moves env app (clear_old env user_id o app)
  unfolding clear_old
  clear_old-Moves user_id none app other = stays app
  clear_old-Moves user_id (some old) app other =
      let noted = notify env NotifyType.info "Cleaning up old connection..." [] app in
      notes NotifyType.info "Cleaning up old connection..." [] app _ (
        then_Moves env noted _ _ (destroy-Moves env (some old) noted)
          (act_Moves env (Action.peer_remove user_id) _ other))

  make_peer-Turns :
      (user_id : String) (initiator : Bool) (stream : Option MediaStream) (page : Page)
      → IsOther user_id
      → Turns page (make_peer env user_id initiator stream page)
  unfolding make_peer
  make_peer-Turns user_id initiator stream page other =
      let l : Listeners = record {
        user_id = user_id;
        on_error = true;
        on_connect = true;
        on_close = true;
      } in
      Turns-trans page (record page { listeners = update page.listeners page.peers_made (some l) })
        _ (listen-Turns page.peers_made l page other) (same_Turns _ _ refl refl)

  create_peer-Moves :
      (initiator : Bool) (stream : Option MediaStream) (user_id : String) (app : App)
      → IsOther user_id
      → Moves env app (create_peer env initiator stream user_id app)
  unfolding create_peer
  create_peer-Moves initiator stream user_id app other =
      let noted = notify env NotifyType.warning "Connecting to peer..." [] app in
      let old = get noted.state.peers user_id in
      let cleared = clear_old env user_id old noted in
      let made = make_peer env user_id initiator stream in
      notes NotifyType.warning "Connecting to peer..." [] app _ (
        then_Moves env noted cleared _ (clear_old-Moves user_id old noted other) (
          then_Moves env cleared (on_page made cleared) _
            (turn_Moves env made cleared
              (make_peer-Turns user_id initiator stream cleared.page other))
            (act_Moves env (Action.peer_add user_id cleared.page.peers_made) _ tt)))

  pub handle_users-Moves :
      (stream : Option MediaStream) (users : Users) (app : App)
      → All IsOther users.peer_ids
      → Moves env app (handle_users env stream users app)
  unfolding handle_users
  handle_users-Moves stream users app others =
      let args = env.number_text (length users.nicknames) ∷ [] in
      let noted = notify env NotifyType.info "Connected users: {0}" args app in
      let new = is_new env noted.state.peers in
      notes NotifyType.info "Connected users: {0}" args app _ (
        then_Moves env noted (dispatch env (Action.nicknames_set users.nicknames) noted) _
          (act_Moves env (Action.nicknames_set users.nicknames) noted tt)
          (for_each-Moves env IsOther (create_peer env (users.initiator =? env.user_id) stream)
            (create_peer-Moves (users.initiator =? env.user_id) stream) (filter new users.peer_ids)
            _ (All-filter IsOther new users.peer_ids others)))

  handle_signal-Moves :
      (user_id : String) (data' : SignalData) (app : App)
      → Moves env app (SocketHandler.handle_signal env user_id data' app)
  unfolding SocketHandler.handle_signal
  handle_signal-Moves user_id data' app = elim (Option-cases (get app.state.peers user_id)) [
    | inl missing ↦ rw (missing, SocketHandler.handle_signal) (stays app)
    | inr (peer, there) ↦
        rw (there, SocketHandler.handle_signal) (call_Moves env (Call.peer_signal peer data') app)
  ]

  pub hang_up-Moves : (app : App) → Moves env app (hang_up env app)
  unfolding hang_up
  hang_up-Moves app =
      then_Moves env app _ _
        (call_Moves env (Call.socket_emit (SocketMessage.hang_up env.user_id)) app)
        (act_Moves env Action.hang_up _ tt)

-- The users whom the server tells of are others.
abbrev pub IsFair : Event → Type 0
IsFair (Event.users_received users) = All IsOther users.peer_ids
IsFair (Event.hang_up_received user_id) = IsPlainKey user_id
IsFair _ = Unit

module _ (env : Env) (call_id : String) where
  fire_users-Moves :
      (users : Users) (ls : List Listener) (s : Session)
      → All IsOther users.peer_ids
      → Moves env s.app (for_each (fire_users env call_id users) ls s).app
  unfolding fire_users settle
  fire_users-Moves users [] s others = stays s.app
  fire_users-Moves users (handler ∷ ls) s others =
      then_Moves env s.app (handle_users env none users s.app) _
        (handle_users-Moves env none users s.app others)
        (fire_users-Moves users ls (record s { app = handle_users env none users s.app }) others)
  fire_users-Moves users (resolves n ∷ ls) s others =
      fire_users-Moves users ls (fire_users env call_id users (resolves n) s) others

  fire_app-Moves :
      (f : App → App)
      → ((app : App) → Moves env app (f app))
      → (ls : List Listener) (s : Session)
      → Moves env s.app (for_each (fire_app env call_id f) ls s).app
  unfolding fire_app
  fire_app-Moves f move [] s = stays s.app
  fire_app-Moves f move (handler ∷ ls) s =
      then_Moves env s.app (f s.app) _ (move s.app)
        (fire_app-Moves f move ls (record s { app = f s.app }))
  fire_app-Moves f move (resolves n ∷ ls) s = fire_app-Moves f move ls s

  handle_event-Moves :
      (event : Event) (s : Session)
      → IsFair event
      → Moves env s.app (handle_event env call_id event s).app
  unfolding handle_event dial call listen remove_event_listeners hang_up_call settle handle_hang_up
  handle_event-Moves (Event.dial_called nickname none) s fair =
      let ready = Call.socket_emit (SocketMessage.ready call_id nickname env.user_id) in
      then_Moves env s.app _ _ (call_Moves env ready s.app)
        (act_Moves env (Action.dial pending) _ tt)
  handle_event-Moves (Event.dial_called nickname (some thrown)) s fair =
      act_Moves env (Action.dial pending) s.app tt
  handle_event-Moves (Event.hang_up_called none) s fair = hang_up-Moves env s.app
  handle_event-Moves (Event.hang_up_called (some thrown)) s fair = stays s.app
  handle_event-Moves (Event.users_received users) s fair = fire_users-Moves users s.on_users s fair
  handle_event-Moves (Event.signal_received user_id data') s fair =
      fire_app-Moves (SocketHandler.handle_signal env user_id data')
        (handle_signal-Moves env user_id data') s.on_signal s
  handle_event-Moves (Event.hang_up_received user_id) s fair =
      fire_app-Moves (handle_hang_up env user_id)
        (λ app. act_Moves env (Action.nickname_remove user_id) app fair) s.on_hang_up s
  handle_event-Moves (Event.timer_fired n) s fair = elim (Bool-cases (any (λ t. t == n) s.timers)) [
    | inl there ↦ rw there (stays s.app)
    | inr gone ↦ rw gone (stays s.app)
  ]

  -- Whatever happens in a session, the client makes its usual moves.
  pub step-Moves :
      (event : Event) (s : Session) → IsFair event → Moves env s.app (step env call_id event s).app
  unfolding step react
  step-Moves event s fair =
      let handled = handle_event env call_id event s in
      then_Moves env s.app handled.app _ (handle_event-Moves event s fair) (
        loop-Moves env (λ o. dispatch env (Action.dial o))
          (λ o app. act_Moves env (Action.dial o) app tt) handled.reactions handled.app)
