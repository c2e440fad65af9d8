-- ===== src/Reducers/Peers/Turning.antt =====
-- What the peers' reducer leaves as it is on the page (src/client/reducers/peers.ts).
use model_lib.Prelude.{
  String, ◌≡◌, refl, ap, ◌∙◌, for_each, for_each_keeps, Option, none, some, Bool-cases, inl, inr,
  ◌=?◌, List,
}
use model_lib.Lodash.{Lodash}
use model_lib.Actions.{
  Action, resolved, MediaStream, StreamType, Peer, AddStreamPayload, RemoveStreamPayload, me,
}
use model_lib.Page.{Page, Call, record_call, get_tracks, peer_add_track, peer_remove_track}
use model_lib.Page.Turning.{Turns, same_Turns}
use model_lib.Reducers.Peers.{
  PeersState, remove_tracks_from_peer, add_tracks_to_peer, remove_old_tracks, switch_stream,
  local_stream, handle_remove_stream, share_stream, handle_typed_stream, handle_media_stream, peers,
}

-- Only the calls, the variable localStreams and the timeouts are others.
abbrev pub Within : Page → Page → Type 0
Within p q =
    q ≡ record p { calls = q.calls; local_streams = q.local_streams; timeouts = q.timeouts }

Within-refl : (p : Page) → Within p p
Within-refl p = refl

Within-trans : (p q r : Page) → Within p q → Within q r → Within p r
Within-trans p q r a b =
    b
    ∙ ap
        (λ (x : Page). record x {
          calls = r.calls;
          local_streams = r.local_streams;
          timeouts = r.timeouts;
        })
        a

Within-Turns : (p q : Page) → Within p q → Turns p q
Within-Turns p q w =
    same_Turns p q (ap (λ (x : Page). x.unique_ids) w) (ap (λ (x : Page). x.listeners) w)

for_each-Within {ℓ} :
    {A : Type ℓ} (f : A → Page → Page)
    → ((x : A) (p : Page) → Within p (f x p))
    → (xs : List A) (p : Page) → Within p (for_each f xs p)
for_each-Within f step xs p =
    for_each_keeps f (Within p) (λ x q w. Within-trans p q (f x q) w (step x q)) xs p refl

calls-Within {ℓ} :
    {A : Type ℓ} (call : A → Call) (xs : List A) (p : Page)
    → Within p (for_each (λ x. record_call (call x)) xs p)
calls-Within call xs p = for_each-Within (λ x. record_call (call x)) (λ x p. refl) xs p

remove_tracks-Within :
    (peer : Peer) (stream : MediaStream) (page : Page)
    → Within page (remove_tracks_from_peer peer stream page)
unfolding remove_tracks_from_peer
remove_tracks-Within peer stream page =
    calls-Within (λ track. peer_remove_track peer track stream) (get_tracks page stream) page

add_tracks-Within :
    (peer : Peer) (stream : MediaStream) (page : Page)
    → Within page (add_tracks_to_peer peer stream page)
unfolding add_tracks_to_peer
add_tracks-Within peer stream page =
    calls-Within (λ track. peer_add_track peer track stream) (get_tracks page stream) page

remove_old-Within :
    (peer : Peer) (old : Option MediaStream) (page : Page)
    → Within page (remove_old_tracks peer old page)
remove_old-Within peer none page = Within-refl page
remove_old-Within peer (some stream) page = remove_tracks-Within peer stream page

switch_stream-Within :
    (type : StreamType) (stream : MediaStream) (e : String × Peer) (page : Page)
    → Within page (switch_stream type stream e page)
unfolding switch_stream
switch_stream-Within type stream e page =
    Within-trans page _ _ (remove_old-Within e.1 (local_stream page.local_streams type) page)
      (add_tracks-Within e.1 stream _)

module _ (lib : Lodash) where
  handle_remove_stream-Within :
      (state : PeersState) (payload : RemoveStreamPayload) (page : Page)
      → Within page (handle_remove_stream lib state payload page).1
  unfolding handle_remove_stream
  handle_remove_stream-Within state payload page = elim (Bool-cases (payload.user_id =? me)) [
    | inl own ↦ rw own (
        for_each-Within _ (λ (e : String × Peer) p. remove_tracks-Within e.1 payload.stream p)
          (lib.entries Peer state) page)
    | inr other ↦ rw other (Within-refl page)
  ]

  share_stream-Within :
      (state : PeersState) (user_id : String) (type : StreamType) (stream : MediaStream)
      (page : Page)
      → Within page (share_stream lib state user_id type stream page).1
  unfolding share_stream
  share_stream-Within state user_id type stream page =
      let switched =
        for_each-Within (switch_stream type stream) (switch_stream-Within type stream)
          (lib.entries Peer state) page in
      elim (Bool-cases (user_id =? me)) [
        | inl own ↦ rw own (Within-trans page _ _ switched refl)
        | inr other ↦ rw other (Within-refl page)
      ]

  handle_typed-Within :
      (state : PeersState) (payload : AddStreamPayload) (type : Option StreamType) (page : Page)
      → Within page (handle_typed_stream lib state payload type page).1
  unfolding handle_typed_stream
  handle_typed-Within state payload none page = Within-refl page
  handle_typed-Within state payload (some type) page =
      share_stream-Within state payload.user_id type payload.stream page

  peers-Within :
      (state : PeersState) (action : Action) (page : Page)
      → Within page (peers lib state action page).1
  unfolding peers handle_media_stream
  peers-Within state Action.hang_up page = refl
  peers-Within state (Action.stream_remove payload) page =
      handle_remove_stream-Within state payload page
  peers-Within state (Action.media_stream (resolved payload)) page =
      handle_typed-Within state payload payload.type page
  peers-Within state _ page = Within-refl page

  pub peers-Turns :
      (state : PeersState) (action : Action) (page : Page)
      → Turns page (peers lib state action page).1
  peers-Turns state action page = Within-Turns page _ (peers-Within state action page)

  -- The reducer leaves the tracks of every stream.
  pub peers-tracks :
      (state : PeersState) (action : Action) (page : Page)
      → (peers lib state action page).1.tracks ≡ page.tracks
  peers-tracks state action page = ap (λ (x : Page). x.tracks) (peers-Within state action page)
