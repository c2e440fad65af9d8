-- ===== src/Client/Silence.antt =====
-- After the local user has hung up, the tracks of the call are heard no more
-- (hangUp in src/client/actions/CallActions.ts, handleTrack in src/client/actions/PeerActions.ts).
use model_lib.Prelude.{◌≡◌, refl, ◌∙◌, sym, subst, [], All, All-map}
use model_lib.Actions.{Action, Track}
use model_lib.Page.{Call, SocketMessage, record_call}
use model_lib.Reducers.Notifications.{notifications}
use model_lib.Reducers.Peers.{peers}
use model_lib.Reducers.Streams.{streams}
use model_lib.Reducers.Streams.Silence.{IsSilent, IsSilentStream, IsSilentUser, hang_up_silences}
use model_lib.Store.{Env, App}
use model_lib.Store.Dispatch.{dispatch-streams, dispatch-page, page_shared}
use model_lib.Client.PeerHandler.{on_page, fire_mute, fire_unmute}
use model_lib.Client.Calls.{hang_up}

-- The track's events change nothing.
pub record IsUnheard (env : Env) (app : App) (track : Track) : Type 0 where
  pub mute : fire_mute env track app ≡ app
  pub unmute : fire_unmute env track app ≡ app

module _ (env : Env) where
  IsSilent-IsUnheard :
      (app : App) (track : Track) → IsSilent app.page track → IsUnheard env app track
  unfolding fire_mute fire_unmute
  IsSilent-IsUnheard app track s = record {
    mute = rw (s.unheard_mute, fire_mute) refl;
    unmute = rw (s.unheard_unmute, fire_unmute) refl;
  }

  -- Once the local user has hung up, no stream is left, and no mute or unmute event of a track
  -- of a stream that was there changes the client, so none brings a stream back.
  pub hang_up-IsUnheard :
      (app : App)
      → ((hang_up env app).state.streams ≡ [])
        × All
            (λ e.
              All
                (λ s. All (IsUnheard env (hang_up env app)) (app.page.tracks s.stream.ref))
                e.1.streams)
            app.state.streams
  unfolding hang_up notifications peers
  hang_up-IsUnheard app =
      let emitted : App =
        on_page (record_call (Call.socket_emit (SocketMessage.hang_up env.user_id))) app in
      let shared = page_shared env Action.hang_up emitted in
      let after = (streams env.lodash app.state.streams Action.hang_up shared).1 in
      let (none_left, silent) = hang_up_silences env.lodash app.state.streams shared in
      let unheard : (t : Track) → IsSilent after t → IsUnheard env (hang_up env app) t = λ t h.
        IsSilent-IsUnheard (hang_up env app) t
          (subst (λ q. IsSilent q t) (sym (dispatch-page env Action.hang_up emitted)) h) in
      (
        dispatch-streams env Action.hang_up emitted ∙ none_left,
        All-map (λ e. IsSilentUser app.page.tracks after e.1) _
            (λ e.
              All-map (IsSilentStream app.page.tracks after) _
                (λ s. All-map (IsSilent after) _ unheard (app.page.tracks s.stream.ref))
                e.1.streams)
            app.state.streams silent,
      )
