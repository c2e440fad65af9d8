-- ===== src/Reducers/Peers/Sending.antt =====
-- Which tracks each peer is sending, by the calls that the reducer makes on the peers
-- (src/client/reducers/peers.ts).
use model_lib.Prelude.{
  String, ◌≡◌, refl, ap, ◌∙◌, Bool, not, ◌&&◌, ◌||◌, Option, none, some, List, [], ◌∷◌, arith, any,
  for_each, for_each_keeps, if◌then◌else◌, ◌==◌,
}
use model_lib.Actions.{Action, Async, Peer, Track, MediaStream, StreamType, me}
use model_lib.Page.{Page, peer_add_track, peer_remove_track, get_tracks}
use model_lib.Lodash.{Lodash}
use model_lib.Reducers.Peers.{
  PeersState, local_stream, set_local_stream, remove_tracks_from_peer, add_tracks_to_peer,
  remove_old_tracks, switch_stream, handle_remove_stream, share_stream, handle_media_stream, peers,
}
use model_lib.Reducers.Peers.Tracks.{
  sending, has, sending-add_all, sending-remove_all, tracks_of, SameMedia, SameMedia-calls,
  same_media,
}

-- Whether the peer is one of these.
abbrev pub is_peer : PeersState → Peer → Bool
is_peer es p = any (λ e. e.1 == p) es

-- What a peer sends once one stream has taken another's place.
abbrev pub switched : List Track → List Track → Track → Bool → Bool
switched old new t was = has new t || was && not (has old t)

-- The loop body, on a page where the stream and the one that it replaces have these tracks.
module _ (type : StreamType) (stream : MediaStream) (base : Page) where
  abbrev old_tracks : List Track
  old_tracks = tracks_of base (local_stream base.local_streams type)

  remove_old_tracks-SameMedia :
      (q : Peer) (o : Option MediaStream) (page : Page)
      → SameMedia base page
      → SameMedia base (remove_old_tracks q o page)
  unfolding remove_tracks_from_peer
  remove_old_tracks-SameMedia q none page h = h
  remove_old_tracks-SameMedia q (some s) page h =
      SameMedia-calls (λ u. peer_remove_track q u s) (get_tracks page s) page base h

  switch_stream-SameMedia :
      (e : String × Peer) (page : Page)
      → SameMedia base page
      → SameMedia base (switch_stream type stream e page)
  unfolding switch_stream add_tracks_to_peer
  switch_stream-SameMedia e page h =
      let page' = remove_old_tracks e.1 (local_stream page.local_streams type) page in
      SameMedia-calls (λ u. peer_add_track e.1 u stream) (get_tracks page' stream) page' base
        (remove_old_tracks-SameMedia e.1 (local_stream page.local_streams type) page h)

  sending-remove_old_tracks :
      (q : Peer) (o : Option MediaStream) (page : Page) (p : Peer) (t : Track)
      → sending (remove_old_tracks q o page) p t
        ≡ (sending page p t && not (q == p && has (tracks_of page o) t))
  unfolding remove_tracks_from_peer
  sending-remove_old_tracks q none page p t = ground arith
  sending-remove_old_tracks q (some s) page p t =
      sending-remove_all q s (get_tracks page s) page p t

  tracks_of-SameMedia :
      (page : Page)
      → SameMedia base page
      → (o : Option MediaStream) → tracks_of page o ≡ tracks_of base o
  tracks_of-SameMedia page h none = refl
  tracks_of-SameMedia page h (some s) = ap (λ f. f s.ref) h.tracks

  sending-switch_stream :
      (e : String × Peer) (page : Page) (p : Peer) (t : Track)
      → SameMedia base page
      → sending (switch_stream type stream e page) p t ≡ (
          if e.1 == p
          then switched old_tracks (get_tracks base stream) t (sending page p t)
          else sending page p t)
  unfolding switch_stream add_tracks_to_peer
  sending-switch_stream e page p t h =
      let o = local_stream page.local_streams type in
      let page' = remove_old_tracks e.1 o page in
      let new : get_tracks page' stream ≡ get_tracks base stream =
        ap (λ f. f stream.ref) (remove_old_tracks-SameMedia e.1 o page h).tracks in
      let old : tracks_of page o ≡ old_tracks =
        tracks_of-SameMedia page h o
        ∙ ap (λ l. tracks_of base (local_stream l type)) h.local_streams in
      let removed : sending page' p t ≡ (sending page p t && not (e.1 == p && has old_tracks t)) =
        sending-remove_old_tracks e.1 o page p t
        ∙ ap (λ ts. sending page p t && not (e.1 == p && has ts t)) old in
      let added =
        sending-add_all e.1 stream (get_tracks page' stream) page' p t
        ∙ ap (λ ts. (e.1 == p && has ts t) || sending page' p t) new in
      ground (arith, removed, added)

  sending-switch_all :
      (es : PeersState) (page : Page) (p : Peer) (t : Track)
      → SameMedia base page
      → sending (for_each (switch_stream type stream) es page) p t ≡ (
          if is_peer es p
          then switched old_tracks (get_tracks base stream) t (sending page p t)
          else sending page p t)
  sending-switch_all [] page p t h = refl
  sending-switch_all (e ∷ es) page p t h = ground (
    arith,
    sending-switch_all es (switch_stream type stream e page) p t (switch_stream-SameMedia e page h),
    sending-switch_stream e page p t h,
  )

sending-remove_stream_all :
    (stream : MediaStream) (base : Page) (es : PeersState) (page : Page) (p : Peer) (t : Track)
    → SameMedia base page
    → sending (for_each (λ e. remove_tracks_from_peer e.1 stream) es page) p t
      ≡ (sending page p t && not (is_peer es p && has (get_tracks base stream) t))
unfolding remove_tracks_from_peer
sending-remove_stream_all stream base [] page p t h = ground arith
sending-remove_stream_all stream base (e ∷ es) page p t h =
    let page' = remove_tracks_from_peer e.1 stream page in
    ground (
      arith,
      sending-remove_stream_all stream base es page' p t (
          SameMedia-calls (λ u. peer_remove_track e.1 u stream) (get_tracks page stream) page base
            h),
      sending-remove_all e.1 stream (get_tracks page stream) page p t,
      ap (λ f. has (f stream.ref) t) h.tracks,
    )

-- The action that follows when the browser gives the local user's stream.
abbrev pub shared : StreamType → MediaStream → Action
shared type stream =
    Action.media_stream
      (Async.resolved (record { user_id = me; type = some type; stream = stream }))

module _ (lib : Lodash) where
  -- When the local user shares a stream of some type, every peer in the state goes over from the
  -- tracks of the stream of that type that was shared before to those of the new one, sends its
  -- other tracks as before, and no other peer is affected; the new stream is remembered for its
  -- type, and the other type keeps its own.
  pub sending-peers_shared :
      (state : PeersState) (type : StreamType) (stream : MediaStream) (page : Page) (p : Peer)
      (t : Track)
      → (sending (peers lib state (shared type stream) page).1 p t ≡ (
          if is_peer state p
          then switched
              (tracks_of page (local_stream page.local_streams type))
              (get_tracks page stream)
              t
              (sending page p t)
          else sending page p t))
        × ((peers lib state (shared type stream) page).1.local_streams
            ≡ set_local_stream page.local_streams type stream)
  unfolding peers handle_media_stream share_stream sending
  sending-peers_shared state type stream page p t = (
    rw (lib.entries_all Peer state)
        (sending-switch_all type stream page state page p t (same_media page)),
    rw (lib.entries_all Peer state) (
        ap (λ l. set_local_stream l type stream)
          (for_each_keeps (switch_stream type stream) (SameMedia page)
            (switch_stream-SameMedia type stream page) state page (same_media page)).local_streams),
  )

  -- When the local user removes a stream, every peer in the state stops sending the stream's
  -- tracks, and nothing else changes in what is sent.
  pub sending-peers_removed :
      (state : PeersState) (stream : MediaStream) (page : Page) (p : Peer) (t : Track)
      → sending
          (peers lib state (Action.stream_remove (record { user_id = me; stream = stream })) page).1
          p
          t
        ≡ (sending page p t && not (is_peer state p && has (get_tracks page stream) t))
  unfolding peers handle_remove_stream
  sending-peers_removed state stream page p t =
      rw (lib.entries_all Peer state)
        (sending-remove_stream_all stream page state page p t (same_media page))
