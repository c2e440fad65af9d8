-- ===== src/Reducers/Peers.antt =====
-- src/client/reducers/peers.ts: the peer connections by user, and the tracks that they are given
-- when the local user's streams change. Calls on a peer are recorded on the page; a call of
-- removeTrack that throws is caught by the program and goes on as one that does not.
pub mod Turning
pub mod Tracks
pub mod Sending
use model_lib.Prelude.{
  String, Option, none, some, [], ◌∷◌, ◌++◌, if◌then◌else◌, for_each, map, ◌=?◌,
}
use model_lib.Prelude.Dict.{Dict, put}
use model_lib.Actions
use model_lib.Actions.{
  Action, Peer, MediaStream, StreamType, camera, desktop, AddStreamPayload, RemoveStreamPayload,
  Async, pending, resolved, rejected, me,
}
use model_lib.Page.{
  Page, LocalStreams, peer_add_track, peer_remove_track, record_call, destroy_peers, get_tracks,
}
use model_lib.Lodash.{Lodash}

abbrev pub PeersState : Type 0
PeersState = Dict Peer

-- localStreams[type]
abbrev pub local_stream : LocalStreams → StreamType → Option MediaStream
local_stream l camera = l.camera
local_stream l desktop = l.desktop

-- localStreams[type] = stream
abbrev pub set_local_stream : LocalStreams → StreamType → MediaStream → LocalStreams
set_local_stream l camera stream = record l { camera = some stream }
set_local_stream l desktop stream = record l { desktop = some stream }

-- stream.getTracks().forEach(track => removeTrackFromPeer(peer, track, stream))
unfoldable pub remove_tracks_from_peer : Peer → MediaStream → Page → Page
remove_tracks_from_peer peer stream page =
    for_each (λ track. record_call (peer_remove_track peer track stream)) (get_tracks page stream)
      page

-- stream.getTracks().forEach(track => peer.addTrack(track, stream))
unfoldable pub add_tracks_to_peer : Peer → MediaStream → Page → Page
add_tracks_to_peer peer stream page =
    for_each (λ track. record_call (peer_add_track peer track stream)) (get_tracks page stream) page

-- localStream && localStream.getTracks().forEach(…)
abbrev pub remove_old_tracks : Peer → Option MediaStream → Page → Page
remove_old_tracks peer none page = page
remove_old_tracks peer (some stream) page = remove_tracks_from_peer peer stream page

-- The body of the loop of `handleMediaStream`.
unfoldable pub switch_stream : StreamType → MediaStream → String × Peer → Page → Page
switch_stream type stream e page =
    add_tracks_to_peer e.1 stream
      (remove_old_tracks e.1 (local_stream page.local_streams type) page)

module _ (lib : Lodash) where
  unfoldable pub handle_remove_stream : PeersState → RemoveStreamPayload → Page → PeersState × Page
  handle_remove_stream state payload page =
      if payload.user_id =? me
      then (
        state,
        for_each (λ e. remove_tracks_from_peer e.1 payload.stream) (lib.entries Peer state) page,
      )
      else (state, page)

  -- handleMediaStream for a payload with the stream's type
  unfoldable pub share_stream :
      PeersState → String → StreamType → MediaStream → Page → PeersState × Page
  share_stream state user_id type stream page =
      let page' = for_each (switch_stream type stream) (lib.entries Peer state) page in
      if user_id =? me
      then (
        state,
        record page' { local_streams = set_local_stream page'.local_streams type stream },
      )
      else (state, page)

  handle_typed_stream : PeersState → AddStreamPayload → Option StreamType → Page → PeersState × Page
  handle_typed_stream state payload none page = (state, page)
  handle_typed_stream state payload (some type) page =
      share_stream state payload.user_id type payload.stream page

  unfoldable pub handle_media_stream :
      PeersState → Async AddStreamPayload → Page → PeersState × Page
  unfolding handle_typed_stream
  handle_media_stream state (resolved payload) page =
      handle_typed_stream state payload payload.type page
  handle_media_stream state pending page = (state, page)
  handle_media_stream state (rejected e) page = (state, page)

  -- the default export
  unfoldable pub peers : PeersState → Action → Page → PeersState × Page
  peers state (Action.peer_add user_id peer) page = (put state user_id peer, page)
  peers state (Action.peer_remove user_id) page = (lib.omit Peer state (user_id ∷ []), page)
  peers state Action.hang_up page = (
    [],
    record page {
      local_streams = record { camera = none; desktop = none };
      timeouts = page.timeouts ++ destroy_peers (map (λ e. e.1) (lib.entries Peer state)) ∷ [];
    },
  )
  peers state (Action.stream_remove payload) page = handle_remove_stream state payload page
  peers state (Action.media_stream a) page = handle_media_stream state a page
  peers state _ page = (state, page)
