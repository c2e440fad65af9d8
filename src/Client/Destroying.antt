-- ===== src/Client/Destroying.antt =====
-- Hanging up closes every connection (hangUp in src/client/actions/CallActions.ts, HANG_UP in
-- src/client/reducers/peers.ts).
use model_lib.Prelude.{
  String, none, some, ◌≡◌, refl, sym, ap, ◌∙◌, List, [], ◌∷◌, ◌++◌, map, for_each, for_each_keeps,
}
use mathlib.Core.List.{append_assoc, append-nil}
use model_lib.Actions.{Action, Peer, Error}
use model_lib.Page.{
  Page, Call, Timeout, SocketMessage, peer_destroy, destroy_peers, record_call, fire_timeout,
  run_timeout, get_tracks,
}
use model_lib.Reducers.Notifications.{notifications}
use model_lib.Reducers.Peers.{peers}
use model_lib.Reducers.Streams.{
  StreamWithUrl, UserStreams, streams, silence, silence_stream, stop_all_tracks, stop_entry,
}
use model_lib.Store.{Env, App}
use model_lib.Store.Dispatch.{dispatch-page, dispatch-peers, page_shared}
use model_lib.Client.PeerHandler.{on_page}
use model_lib.Client.Calls.{Session, hang_up, hang_up_call}

-- What the page has yet to do, and has asked of the connections and the server.
pub record SameCalls (page page' : Page) : Type 0 where
  pub calls : page'.calls ≡ page.calls
  pub timeouts : page'.timeouts ≡ page.timeouts

silence_stream-SameCalls :
    (base : Page) (s : StreamWithUrl) (page : Page)
    → SameCalls base page
    → SameCalls base (silence_stream s page)
unfolding silence silence_stream
silence_stream-SameCalls base s page h =
    for_each_keeps silence (SameCalls base)
      (λ t p k. record { calls = k.calls; timeouts = k.timeouts }) (get_tracks page s.stream) page h

stop_entry-SameCalls :
    (base : Page) (e : String × UserStreams) (page : Page)
    → SameCalls base page
    → SameCalls base (stop_entry e page)
unfolding stop_all_tracks
stop_entry-SameCalls base e page h =
    for_each_keeps silence_stream (SameCalls base) (silence_stream-SameCalls base) e.1.streams page
      h

calls-destroy_all :
    (ps : List Peer) (page : Page)
    → (for_each (λ p. record_call (peer_destroy p)) ps page).calls
      ≡ page.calls ++ map (λ p. peer_destroy p) ps
calls-destroy_all [] page = sym (append-nil page.calls)
calls-destroy_all (p ∷ ps) page =
    calls-destroy_all ps (record_call (peer_destroy p) page) ∙ append_assoc page.calls _ _

fire_first :
    (page : Page) (ps : List Peer) (rest : List Timeout)
    → page.timeouts ≡ destroy_peers ps ∷ rest
    → (fire_timeout page).calls ≡ page.calls ++ map (λ p. peer_destroy p) ps
unfolding fire_timeout run_timeout
fire_first page ps rest e =
    rw (e, fire_timeout) (calls-destroy_all ps (record page { timeouts = rest }))

module _ (env : Env) where
  hang_up-SameCalls :
      (app : App)
      → ((hang_up env app).page.calls
          ≡ app.page.calls ++ Call.socket_emit (SocketMessage.hang_up env.user_id) ∷ [])
        × ((hang_up env app).page.timeouts
            ≡ app.page.timeouts
              ++ destroy_peers (map (λ e. e.1) (env.lodash.entries Peer app.state.peers)) ∷ [])
        × ((hang_up env app).state.peers ≡ [])
  unfolding hang_up notifications peers streams
  hang_up-SameCalls app =
      let emitted : App =
        on_page (record_call (Call.socket_emit (SocketMessage.hang_up env.user_id))) app in
      let shared = page_shared env Action.hang_up emitted in
      let same : SameCalls shared (streams env.lodash app.state.streams Action.hang_up shared).1 =
        for_each_keeps stop_entry (SameCalls shared) (stop_entry-SameCalls shared)
          (env.lodash.entries UserStreams app.state.streams) shared
          (record { calls = refl; timeouts = refl }) in
      (
        ap (λ (q : Page). q.calls) (dispatch-page env Action.hang_up emitted) ∙ same.calls,
        ap (λ (q : Page). q.timeouts) (dispatch-page env Action.hang_up emitted) ∙ same.timeouts,
        dispatch-peers env Action.hang_up emitted,
      )

  hang_up_destroys :
      (app : App)
      → app.page.timeouts ≡ []
      → ((hang_up env app).state.peers ≡ [])
        × ((hang_up env app).page.calls
            ≡ app.page.calls ++ Call.socket_emit (SocketMessage.hang_up env.user_id) ∷ [])
        × ((fire_timeout (hang_up env app).page).calls
            ≡ (app.page.calls ++ Call.socket_emit (SocketMessage.hang_up env.user_id) ∷ [])
              ++ map (λ p. peer_destroy p) (map (λ e. e.1) app.state.peers))
  hang_up_destroys app idle =
      let (calls, timeouts, gone) = hang_up-SameCalls app in
      let due : (hang_up env app).page.timeouts
          ≡ destroy_peers (map (λ e. e.1) app.state.peers) ∷ [] =
        timeouts
        ∙ ap
            (λ ts.
              ts ++ destroy_peers (map (λ e. e.1) (env.lodash.entries Peer app.state.peers)) ∷ [])
            idle
        ∙ ap (λ ps. destroy_peers (map (λ e. e.1) ps) ∷ [])
            (env.lodash.entries_all Peer app.state.peers) in
      (
        gone,
        calls,
        fire_first (hang_up env app).page (map (λ e. e.1) app.state.peers) [] due
            ∙ ap (λ cs. cs ++ map (λ p. peer_destroy p) (map (λ e. e.1) app.state.peers)) calls,
      )

module _ (env : Env) (call_id : String) where
  -- When the local user hangs up while no timeout is due and the socket does not throw, the
  -- server is told, no connection is left in the state, and no call is made on a connection yet;
  -- when the timeout then runs, each connection that was in the state is destroyed once, in
  -- their order, and nothing else is called. If the socket throws, as it does while it is
  -- opening, then hanging up changes nothing, so that every connection stays.
  pub hang_up-fire_timeout :
      (s : Session) (thrown : Error)
      → s.app.page.timeouts ≡ []
      → let after = (hang_up_call env call_id none s).app in
        (after.state.peers ≡ [])
        × (after.page.calls
            ≡ s.app.page.calls ++ Call.socket_emit (SocketMessage.hang_up env.user_id) ∷ [])
        × ((fire_timeout after.page).calls
            ≡ (s.app.page.calls ++ Call.socket_emit (SocketMessage.hang_up env.user_id) ∷ [])
              ++ map (λ p. peer_destroy p) (map (λ e. e.1) s.app.state.peers))
        × (hang_up_call env call_id (some thrown) s ≡ s)
  unfolding hang_up_call
  hang_up-fire_timeout s thrown idle =
      let (gone, calls, destroyed) = hang_up_destroys env s.app idle in
      (gone, calls, destroyed, refl)
