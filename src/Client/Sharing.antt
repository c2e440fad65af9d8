-- ===== src/Client/Sharing.antt =====
-- A peer that connects is to get the local user's tracks (handleConnect in
-- src/client/actions/PeerActions.ts).
use model_lib.Prelude.{true, ◌+◌, String, ◌≡◌, refl, ap, ◌∙◌, some, List, [], ◌∷◌, any}
use model_lib.Prelude.Dict.{get}
use model_lib.Actions.{Action, NotifyType, Peer, Track, me}
use model_lib.Page.{Page, get_tracks, gives_track}
use model_lib.Reducers.Notifications.{notifications, make_notification}
use model_lib.Reducers.Peers.{PeersState, peers}
use model_lib.Reducers.Streams.{StreamWithUrl, StreamsState, streams}
use model_lib.Reducers.Streams.Entries.{streams_of}
use model_lib.Store.{Env, App}
use model_lib.Store.Dispatch.{dispatch-page}
use model_lib.Client.Notify.{notify}
use model_lib.Client.PeerHandler.{threw, after, give_tracks, share_with, handle_connect}
use model_lib.Client.Joining.{notify-peers}
use model_lib.Client.Leaving.{notify-streams}

module _ (env : Env) where
  -- A notification takes an id and changes nothing else on the page.
  pub notify-page :
      (type : NotifyType) (text : String) (args : List String) (app : App)
      → (notify env type text args app).page
        ≡ record app.page { unique_ids = app.page.unique_ids + 1 }
  unfolding notify notifications peers streams make_notification
  notify-page type text args app = dispatch-page env (Action.notify _) _

  abbrev pub noted : App → App
  noted = notify env NotifyType.warning "Peer connection established" []

  own_streams :
      (app : App) → streams_of (noted app).state.streams me ≡ streams_of app.state.streams me
  own_streams app = ap (λ (d : StreamsState). streams_of d me) (notify-streams env _ _ _ app)

  given_before :
      (peer : Peer) (t : Track) (ts : List Track) (s : StreamWithUrl) (app : App)
      → any (gives_track peer t s.stream) app.page.calls ≡ true
      → give_tracks env peer s.stream (t ∷ ts) app ≡ threw app
  unfolding give_tracks
  given_before peer t ts s app again =
      rw (env.add_track_again app.page.calls peer t s.stream again, give_tracks) refl

  -- If the local user's first stream was shared with a peer before the peer connects, so that
  -- the peer was given the stream's first track, then the handler throws when it connects: the
  -- local user sees the notification that the connection is there, but no call is made on it, so
  -- none of the tracks of the user's other streams are given to the peer.
  pub handle_connect-given_before :
      (user_id : String) (peer : Peer) (app : App) (s : StreamWithUrl) (ss : List StreamWithUrl)
      (t : Track) (ts : List Track)
      → get app.state.peers user_id ≡ some peer
      → streams_of app.state.streams me ≡ s ∷ ss
      → get_tracks app.page s.stream ≡ t ∷ ts
      → any (gives_track peer t s.stream) app.page.calls ≡ true
      → (handle_connect env user_id app ≡ threw (noted app))
        × ((noted app).page.calls ≡ app.page.calls)
  unfolding handle_connect share_with
  handle_connect-given_before user_id peer app s ss t ts there mine tracks again =
      let same = ap (λ (p : Page). p.calls) (notify-page NotifyType.warning _ _ app) in
      let noted_tracks : get_tracks (noted app).page s.stream ≡ t ∷ ts =
        ap (λ (p : Page). p.tracks s.stream.ref) (notify-page NotifyType.warning _ _ app)
        ∙ tracks in
      (
        ap (λ o. share_with env o (streams_of (noted app).state.streams me) (noted app))
              (ap (λ (d : PeersState). get d user_id) (notify-peers env _ _ _ app) ∙ there)
            ∙ ap (λ l. share_with env (some peer) l (noted app)) (own_streams app ∙ mine)
            ∙ ap
                (λ l.
                  after (share_with env (some peer) ss)
                    (give_tracks env peer s.stream l (noted app)))
                noted_tracks
            ∙ ap (after (share_with env (some peer) ss)) (
                given_before peer t ts s (noted app)
                  (ap (any (gives_track peer t s.stream)) same ∙ again)),
        same,
      )
