-- ===== src/Client/Moves/Handlers.antt =====
-- The handlers only make the client's usual moves (src/client/actions/PeerActions.ts,
-- src/client/actions/SocketActions.ts).
use model_lib.Prelude.{
  String, ◌≡◌, refl, subst, false, Option, none, some, List, [], ◌∷◌, for_each, Bool-cases,
  Option-cases, inl, inr, arith, ◌==◌,
}
use model_lib.Prelude.Dict.{get}
use model_lib.Actions.{MediaStream, Action, NotifyType, Peer, Track, ReceivedMessage, me}
use model_lib.Page.{Page, Call, record_call, Listeners, TrackHandler, update, get_tracks}
use model_lib.Page.Turning.{IsOther, IsHeard, Turns, same_Turns}
use model_lib.Reducers.Streams.{StreamWithUrl, user_streams_or_new}
use model_lib.Store.{Env, App}
use model_lib.Client.Notify.{notify}
use model_lib.Client.PeerHandler
use model_lib.Client.PeerHandler.{
  Handled, returned, threw, app_of, PeerEvent, on_page, listen, destroy, throw_at_track,
  handle_error, after, give_tracks, share_with, handle_connect, handle_track, fire_mute,
  fire_unmute, handle_parsed, handle_data, remove_one, handle_close, clear_old, make_peer,
  create_peer, deliver, peer_event,
}
use model_lib.Client.Moves.{
  Moves, stays, notes, then_Moves, call_Moves, act_Moves, turn_Moves, loop-Moves,
}

-- A listener for a connection with another user.
pub listen-Turns :
    (peer : Peer) (l : Listeners) (page : Page)
    → IsOther l.user_id
    → Turns page (record page { listeners = update page.listeners peer (some l) })
listen-Turns peer l page other = record {
  ids = refl;
  hears = λ h. record {
    other = λ p k e. elim (Bool-cases (peer == p)) [
      | inl same ↦
          let found : l ≡ k = ground (arith, e) in
          subst (λ (x : Listeners). IsOther x.user_id) found other
      | inr others ↦ h.other p k (ground (arith, e))
    ];
  };
}

module _ (env : Env) where
  pub destroy-Moves : (o : Option Peer) (app : App) → Moves env app (destroy env o app)
  destroy-Moves none app = stays app
  destroy-Moves (some peer) app = call_Moves env (Call.peer_destroy peer) app

  handle_error-Moves :
      (user_id : String) (app : App)
      → IsOther user_id
      → Moves env app (handle_error env user_id app)
  unfolding handle_error
  handle_error-Moves user_id app other =
      let noted = notify env NotifyType.error "A peer connection error occurred" [] app in
      notes NotifyType.error "A peer connection error occurred" [] app _ (
        then_Moves env noted _ _ (destroy-Moves (get noted.state.peers user_id) noted)
          (act_Moves env (Action.peer_remove user_id) _ other))

  pub handle_close-Moves :
      (user_id : String) (app : App)
      → IsOther user_id
      → Moves env app (handle_close env user_id app)
  unfolding handle_close remove_one
  handle_close-Moves user_id app other =
      let noted = notify env NotifyType.error "Peer connection closed" [] app in
      let ss = (user_streams_or_new user_id (get noted.state.streams user_id)).streams in
      notes NotifyType.error "Peer connection closed" [] app _ (
        then_Moves env noted (for_each (remove_one env user_id) ss noted) _
          (loop-Moves env (remove_one env user_id)
            (λ s app. act_Moves env (Action.stream_remove _) app tt) ss noted)
          (act_Moves env (Action.peer_remove user_id) _ other))

  throw_at_track-Moves :
      (ts : List Track) (rest : Handled) (app : App)
      → Moves env app (app_of rest)
      → Moves env app (app_of (throw_at_track ts rest app))
  throw_at_track-Moves [] rest app m = m
  throw_at_track-Moves (t ∷ ts) rest app m = stays app

  give_tracks-Moves :
      (peer : Peer) (stream : MediaStream) (ts : List Track) (app : App)
      → Moves env app (app_of (give_tracks env peer stream ts app))
  unfolding give_tracks
  give_tracks-Moves peer stream [] app = stays app
  give_tracks-Moves peer stream (t ∷ ts) app =
      let given = on_page (record_call (Call.peer_add_track peer t stream)) app in
      elim (Bool-cases (env.add_track_returns app.page.calls peer t stream)) [
        | inl taken ↦ rw taken (
            then_Moves env app given _ (call_Moves env (Call.peer_add_track peer t stream) app)
              (give_tracks-Moves peer stream ts given))
        | inr refused ↦ rw refused (stays app)
      ]

  after-Moves :
      (next : App → Handled) (app : App) (h : Handled)
      → ((app : App) → Moves env app (app_of (next app)))
      → Moves env app (app_of h)
      → Moves env app (app_of (after next h))
  after-Moves next app (returned app') moves m =
      then_Moves env app app' (app_of (next app')) m (moves app')
  after-Moves next app (threw app') moves m = m

  share_with-Moves :
      (o : Option Peer) (ss : List StreamWithUrl) (app : App)
      → Moves env app (app_of (share_with env o ss app))
  unfolding share_with
  share_with-Moves none [] app = stays app
  share_with-Moves none (s ∷ ss) app =
      throw_at_track-Moves (get_tracks app.page s.stream) (share_with env none ss app) app
        (share_with-Moves none ss app)
  share_with-Moves (some peer) [] app = stays app
  share_with-Moves (some peer) (s ∷ ss) app =
      after-Moves (share_with env (some peer) ss) app
        (give_tracks env peer s.stream (get_tracks app.page s.stream) app)
        (share_with-Moves (some peer) ss)
        (give_tracks-Moves peer s.stream (get_tracks app.page s.stream) app)

  handle_connect-Moves :
      (user_id : String) (app : App) → Moves env app (app_of (handle_connect env user_id app))
  unfolding handle_connect
  handle_connect-Moves user_id app =
      let noted = notify env NotifyType.warning "Peer connection established" [] app in
      notes NotifyType.warning "Peer connection established" [] app _ (
        share_with-Moves (get noted.state.peers user_id)
          (user_streams_or_new me (get noted.state.streams me)).streams noted)

  handle_parsed-Moves :
      (user_id : String) (o : Option ReceivedMessage) (app : App)
      → Moves env app (app_of (handle_parsed env user_id app o))
  handle_parsed-Moves user_id none app = stays app
  handle_parsed-Moves user_id (some m) app = act_Moves env (Action.message_add _) app tt

  listen-Moves :
      (peer : Peer) (l : Listeners) (app : App)
      → IsOther l.user_id
      → Moves env app (listen peer l app)
  listen-Moves peer l app other =
      turn_Moves env (λ page. record page { listeners = update page.listeners peer (some l) }) app
        (listen-Turns peer l app.page other)

  -- A handler that is called once, after its listener has gone.
  once-Moves :
      (peer : Peer) (l : Listeners) (app after : App)
      → IsOther l.user_id
      → Moves env (listen peer l app) after
      → Moves env app after
  once-Moves peer l app after other m =
      then_Moves env app (listen peer l app) after (listen-Moves peer l app other) m

  deliver-Moves :
      (peer : Peer) (l : Listeners) (e : PeerEvent) (app : App)
      → IsOther l.user_id
      → Moves env app (app_of (deliver env peer l e app))
  unfolding deliver handle_data PeerHandler.handle_signal handle_track
  deliver-Moves peer l PeerEvent.error app other = elim (Bool-cases l.on_error) [
    | inl on ↦ rw on (
        once-Moves peer (record l { on_error = false }) app _ other
          (handle_error-Moves l.user_id _ other))
    | inr off ↦ rw off (stays app)
  ]
  deliver-Moves peer l PeerEvent.connect app other = elim (Bool-cases l.on_connect) [
    | inl on ↦ rw on (
        once-Moves peer (record l { on_connect = false }) app _ other
          (handle_connect-Moves l.user_id _))
    | inr off ↦ rw off (stays app)
  ]
  deliver-Moves peer l PeerEvent.close app other = elim (Bool-cases l.on_close) [
    | inl on ↦ rw on (
        once-Moves peer (record l { on_close = false }) app _ other
          (handle_close-Moves l.user_id _ other))
    | inr off ↦ rw off (stays app)
  ]
  deliver-Moves peer l (PeerEvent.signalled data') app other = call_Moves env _ app
  deliver-Moves peer l (PeerEvent.tracked track stream) app other =
      let handler : TrackHandler = record { user_id = l.user_id; stream = stream } in
      let set : Page → Page = λ page. record page {
        on_mute = update page.on_mute track (some handler);
        on_unmute = update page.on_unmute track (some handler);
      } in
      turn_Moves env set app (same_Turns app.page (set app.page) refl refl)
  deliver-Moves peer l (PeerEvent.received_text text) app other =
      handle_parsed-Moves l.user_id (env.json.parse text) app

  -- An event of a connection, if those that are listened to are with other users.
  pub peer_event-Moves :
      (peer : Peer) (e : PeerEvent) (app : App)
      → IsHeard app.page
      → Moves env app (app_of (peer_event env peer e app))
  unfolding peer_event
  peer_event-Moves peer e app h = elim (Option-cases (app.page.listeners peer)) [
    | inl missing ↦ rw (missing, peer_event) (stays app)
    | inr (l, there) ↦ rw (there, peer_event) (deliver-Moves peer l e app (h.other peer l there))
  ]
