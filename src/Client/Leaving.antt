-- ===== src/Client/Leaving.antt =====
-- What is left of a user whose connection closes (handleClose in
-- src/client/actions/PeerActions.ts).
mod Minus
use model_lib.Client.Leaving.Minus.{
  minus, minus-Within, Within-self, Filed, get-none_of_streams_of, Filed-streams_of,
}
use model_lib.Prelude.{
  String, ◌≡◌, ◌≢◌, refl, sym, ap, ◌∙◌, subst, Option, none, List, [], ◌∷◌, arith, for_each,
  for_each_keeps,
}
use model_lib.Prelude.Dict.{get, without, get-without_self, get-without_ne}
use model_lib.Actions
use model_lib.Actions.{Action, Peer, RemoveStreamPayload, NotifyType}
use model_lib.Lodash.{IsPlainKey}
use model_lib.Reducers.Streams.{
  StreamWithUrl, StreamsState, streams, remove_stream, owner, other_streams,
}
use model_lib.Reducers.Streams.Invariant.{IsWellFormed, streams-IsWellFormed}
use model_lib.Reducers.Streams.Entries.{streams_of, streams_of-remove_stream}
use model_lib.Reducers.Streams.Frame.{streams_frame}
use model_lib.Reducers.Peers.{PeersState, peers, handle_remove_stream}
use model_lib.Reducers.Nicknames.{Nicknames, nicknames}
use model_lib.Store.{Env, App, dispatch}
use model_lib.Store.Dispatch.{dispatch-streams, dispatch-peers, dispatch-nicknames, page_shared}
use model_lib.Client.Notify.{notify}
use model_lib.Client.PeerHandler.{handle_close, remove_one}
use model_lib.Client.Joining.{notify-peers}

module _ (env : Env) where
  pub notify-streams :
      (type : NotifyType) (text : String) (args : List String) (app : App)
      → (notify env type text args app).state.streams ≡ app.state.streams
  unfolding notify streams
  notify-streams type text args app = dispatch-streams env (Action.notify _) _

  remove_one-streams :
      (user_id : String) (s : StreamWithUrl) (app : App)
      → (remove_one env user_id s app).state.streams
        ≡ (streams env.lodash app.state.streams
            (Action.stream_remove (record { user_id = user_id; stream = s.stream }))
            (page_shared env
              (Action.stream_remove (record { user_id = user_id; stream = s.stream }))
              app)).0
  unfolding remove_one
  remove_one-streams user_id s app = dispatch-streams env _ app

  remove_one-peers :
      (user_id : String) (s : StreamWithUrl) (app : App)
      → (remove_one env user_id s app).state.peers ≡ app.state.peers
  unfolding remove_one peers handle_remove_stream
  remove_one-peers user_id s app = dispatch-peers env _ app ∙ ground arith

  streams_of-remove_one :
      (k : String) (s : StreamWithUrl) (app : App)
      → owner k s.stream ≡ k
      → streams_of (remove_one env k s app).state.streams k
        ≡ other_streams s.stream (streams_of app.state.streams k)
  unfolding streams
  streams_of-remove_one k s app e =
      let gone : RemoveStreamPayload = record { user_id = k; stream = s.stream } in
      let shared = page_shared env (Action.stream_remove gone) app in
      ap (λ (d : StreamsState). streams_of d k) (remove_one-streams k s app)
      ∙ subst
          (λ j.
            streams_of (remove_stream env.lodash app.state.streams gone shared).0 j
            ≡ other_streams s.stream (streams_of app.state.streams j))
          e (streams_of-remove_stream env.lodash app.state.streams gone shared)

  streams_of-remove_all :
      (k : String) (xs : List StreamWithUrl) (app : App)
      → Filed k xs
      → streams_of (for_each (remove_one env k) xs app).state.streams k
        ≡ minus xs (streams_of app.state.streams k)
  streams_of-remove_all k [] app f = refl
  streams_of-remove_all k (s ∷ xs) app f =
      streams_of-remove_all k xs (remove_one env k s app) f.1
      ∙ ap (minus xs) (streams_of-remove_one k s app f.0)

  remove_one-IsWellFormed :
      (k : String) (s : StreamWithUrl) (app : App)
      → IsWellFormed app.state.streams
      → IsWellFormed (remove_one env k s app).state.streams
  remove_one-IsWellFormed k s app w =
      subst IsWellFormed (sym (remove_one-streams k s app))
        (streams-IsWellFormed env.lodash app.state.streams _ _ tt w)

  remove_one_ne :
      (k j : String) (s : StreamWithUrl) (app : App)
      → owner k s.stream ≡ k
      → k ≢ j
      → get (remove_one env k s app).state.streams j ≡ get app.state.streams j
  remove_one_ne k j s app e ne =
      ap (λ (d : StreamsState). get d j) (remove_one-streams k s app)
      ∙ streams_frame env.lodash app.state.streams _ _ j tt (λ q. ne (sym e ∙ q))

  -- The loop of handleClose keeps the state well formed, other users' streams and the connections.
  remove_all-IsWellFormed :
      (k : String) (xs : List StreamWithUrl) (app : App)
      → IsWellFormed app.state.streams
      → IsWellFormed (for_each (remove_one env k) xs app).state.streams
  remove_all-IsWellFormed k xs app w =
      for_each_keeps (remove_one env k) (λ a. IsWellFormed a.state.streams)
        (remove_one-IsWellFormed k) xs app w

  remove_all_ne :
      (k j : String) (xs : List StreamWithUrl) (app : App)
      → Filed k xs
      → k ≢ j
      → get (for_each (remove_one env k) xs app).state.streams j ≡ get app.state.streams j
  remove_all_ne k j [] app f ne = refl
  remove_all_ne k j (s ∷ xs) app f ne =
      remove_all_ne k j xs (remove_one env k s app) f.1 ne ∙ remove_one_ne k j s app f.0 ne

  remove_all-peers :
      (k : String) (xs : List StreamWithUrl) (app : App)
      → (for_each (remove_one env k) xs app).state.peers ≡ app.state.peers
  remove_all-peers k [] app = refl
  remove_all-peers k (s ∷ xs) app =
      remove_all-peers k xs (remove_one env k s app) ∙ remove_one-peers k s app

  -- What PEER_REMOVE does.
  removed-peers :
      (k : String) (app : App)
      → IsPlainKey k
      → (dispatch env (Action.peer_remove k) app).state.peers ≡ without app.state.peers k
  unfolding peers
  removed-peers k app plain =
      dispatch-peers env (Action.peer_remove k) app
      ∙ env.lodash.omit_plain Peer app.state.peers k plain

  removed-nicknames :
      (k : String) (app : App)
      → IsPlainKey k
      → (dispatch env (Action.peer_remove k) app).state.nicknames ≡ without app.state.nicknames k
  unfolding nicknames
  removed-nicknames k app plain =
      dispatch-nicknames env (Action.peer_remove k) app
      ∙ env.lodash.omit_plain (Option String) app.state.nicknames k plain

  removed-streams :
      (k : String) (app : App)
      → (dispatch env (Action.peer_remove k) app).state.streams ≡ app.state.streams
  unfolding streams
  removed-streams k app = dispatch-streams env (Action.peer_remove k) app

  -- The client when the loop of handleClose begins, and when it has ended.
  abbrev told : App → App
  told = notify env NotifyType.error "Peer connection closed" []

  abbrev emptied : String → App → App
  emptied k app = for_each (remove_one env k) (streams_of (told app).state.streams k) (told app)

  told-IsWellFormed :
      (app : App) → IsWellFormed app.state.streams → IsWellFormed (told app).state.streams
  told-IsWellFormed app = subst IsWellFormed (sym (notify-streams _ _ _ app))

  emptied-streams :
      (k : String) (app : App)
      → IsWellFormed app.state.streams
      → get (emptied k app).state.streams k ≡ none
  emptied-streams k app w =
      let w' = told-IsWellFormed app w in
      let mine = streams_of (told app).state.streams k in
      get-none_of_streams_of (emptied k app).state.streams k
        (remove_all-IsWellFormed k mine (told app) w')
        (streams_of-remove_all k mine (told app) (Filed-streams_of (told app).state.streams k w')
          ∙ minus-Within mine mine (Within-self mine))

  -- When a connection closes, its user has no connection, no stream and no place among the users
  -- any more, if the streams are well formed and the user's id is a plain key.
  pub handle_close_clears :
      (k : String) (app : App)
      → IsPlainKey k
      → IsWellFormed app.state.streams
      → (get (handle_close env k app).state.peers k ≡ none)
        × (get (handle_close env k app).state.streams k ≡ none)
        × (get (handle_close env k app).state.nicknames k ≡ none)
  unfolding handle_close
  handle_close_clears k app plain w = (
    ap (λ (d : PeersState). get d k) (removed-peers k (emptied k app) plain)
        ∙ get-without_self (emptied k app).state.peers k,
    ap (λ (d : StreamsState). get d k) (removed-streams k (emptied k app))
        ∙ emptied-streams k app w,
    ap (λ (d : Nicknames). get d k) (removed-nicknames k (emptied k app) plain)
        ∙ get-without_self (emptied k app).state.nicknames k,
  )

  -- When a connection closes, every other user's connection and streams are as before, if the
  -- streams are well formed and the closing user's id is a plain key.
  pub handle_close_ne :
      (k j : String) (app : App)
      → IsPlainKey k
      → IsWellFormed app.state.streams
      → k ≢ j
      → (get (handle_close env k app).state.peers j ≡ get app.state.peers j)
        × (get (handle_close env k app).state.streams j ≡ get app.state.streams j)
  unfolding handle_close
  handle_close_ne k j app plain w ne =
      let w' = told-IsWellFormed app w in
      let mine = streams_of (told app).state.streams k in
      (
        ap (λ (d : PeersState). get d j) (removed-peers k (emptied k app) plain)
            ∙ get-without_ne (emptied k app).state.peers k j ne
            ∙ ap (λ (d : PeersState). get d j)
                (remove_all-peers k mine (told app) ∙ notify-peers env _ _ _ app),
        ap (λ (d : StreamsState). get d j) (removed-streams k (emptied k app))
            ∙ remove_all_ne k j mine (told app) (Filed-streams_of (told app).state.streams k w') ne
            ∙ ap (λ (d : StreamsState). get d j) (notify-streams _ _ _ app),
      )
