-- ===== src/Client/Events/Histories.antt =====
-- The client after any history of events.
use model_lib.Prelude.{String, ◌≡◌, Option, none, List, [], ◌∷◌, All}
use model_lib.Prelude.Dict.{get}
use model_lib.Lodash.{IsPlainKey}
use model_lib.Actions.{Action}
use model_lib.Page.{Page}
use model_lib.Reducers.Streams.{streams}
use model_lib.Reducers.Streams.Invariant.{IsWellFormed, empty-IsWellFormed}
use model_lib.Store.{Env, App, initial_state}
use model_lib.Client.PeerHandler.{handle_close}
use model_lib.Client.SocketHandler.{handle_hang_up}
use model_lib.Client.Leaving.{handle_close_clears}
use model_lib.Client.Chat.Reaching.{app_of-ended}
use model_lib.Client.Messaging.{told, send_message-ended}
use model_lib.Client.Calls.{hang_up}
use model_lib.Client.Events.{
  ClientEvent, peer_fires, track_mutes, track_unmutes, signal_comes, users_come, hang_up_comes,
  user_hangs_up, timeout_fires, user_sends, acts, IsPossible, after_event, run_events,
}
use model_lib.Client.Events.Handlers.{
  IsFine, dispatch-IsFine, peer_event-IsFine, fire_mute-IsFine, fire_unmute-IsFine, signal-IsFine,
  handle_users-IsFine,
}

module _ (env : Env) where
  after_event-IsFine :
      (e : ClientEvent) (app : App)
      → IsPossible e
      → IsFine env app
      → IsFine env (after_event env e app)
  unfolding after_event handle_hang_up hang_up
  after_event-IsFine (peer_fires peer e) app possible w = peer_event-IsFine env peer e app w
  after_event-IsFine (track_mutes t) app possible w = fire_mute-IsFine env t app w
  after_event-IsFine (track_unmutes t) app possible w = fire_unmute-IsFine env t app w
  after_event-IsFine (signal_comes user_id data') app possible w =
      signal-IsFine env user_id data' app w
  after_event-IsFine (users_come stream users) app possible w =
      handle_users-IsFine env stream users app w
  after_event-IsFine (hang_up_comes user_id) app plain w =
      dispatch-IsFine env (Action.nickname_remove user_id) app plain w
  after_event-IsFine timeout_fires app possible w = w
  after_event-IsFine user_hangs_up app possible w = dispatch-IsFine env Action.hang_up _ tt w
  after_event-IsFine (user_sends m) app possible w =
      rw (send_message-ended env m app, app_of-ended _ (told env m app))
        (dispatch-IsFine env (Action.message_add _) app tt w)
  after_event-IsFine (acts a) app plain w = dispatch-IsFine env a app plain w

  run_events-IsFine :
      (events : List ClientEvent) (app : App)
      → All IsPossible events
      → IsFine env app
      → IsFine env (run_events env events app)
  run_events-IsFine [] app possible w = w
  run_events-IsFine (e ∷ events) app possible w =
      run_events-IsFine events (after_event env e app) possible.1
        (after_event-IsFine e app possible.0 w)

  -- After any history of events of peers, tracks, the server and the user from the store's
  -- initial state, the streams are well formed, and the closing of a user's connection leaves
  -- the user no connection, no stream and no place among the users; the ids of users who leave,
  -- and of this one, must be plain keys.
  pub run_events-handle_close :
      (stored : Option String) (nickname : String) (page : Page) (events : List ClientEvent)
      (k : String)
      → All IsPossible events
      → IsPlainKey k
      → let app : App =
          run_events env events (record { state = initial_state stored nickname; page = page }) in
        IsWellFormed app.state.streams
        × (get (handle_close env k app).state.peers k ≡ none)
        × (get (handle_close env k app).state.streams k ≡ none)
        × (get (handle_close env k app).state.nicknames k ≡ none)
  run_events-handle_close stored nickname page events k possible plain =
      let start : App = record { state = initial_state stored nickname; page = page } in
      let w = run_events-IsFine events start possible empty-IsWellFormed in
      let (peers, streams, nicknames) =
        handle_close_clears env k (run_events env events start) plain w in
      (w, peers, streams, nicknames)
