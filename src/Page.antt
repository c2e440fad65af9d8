-- ===== src/Page.antt =====
-- The browser page that the client runs in, as far as the client reads and changes it: the tracks
-- of each MediaStream, the state and the handlers of each track, object URLs (src/client/window.ts),
-- the variable `localStreams` of src/client/reducers/peers.ts, the clock, and a record of the calls
-- made on simple-peer objects and on window.URL, in their order.
pub mod Turning
use model_lib.Prelude.{
  false, ◌&&◌, ℕ, ◌+◌, String, Bool, true, not, Option, none, some, List, [], ◌∷◌, ◌++◌, ◌==◌,
  if◌then◌else◌, any, filter, for_each, ◌=?◌,
}
use model_lib.Actions.{Track, Peer, MediaStream}

-- The closures that PeerHandler.handleTrack stores on a track hold these two values.
pub record TrackHandler : Type 0 where
  pub user_id : String
  pub stream : MediaStream

-- What simple-peer exchanges between two peers; the client only passes it on.
abbrev pub SignalData : Type 0
SignalData = String

-- The messages that the client sends over the socket.
pub data SocketMessage : Type 0 where
  signal : String → SignalData → SocketMessage
  ready : (room nickname user_id : String) → SocketMessage
  hang_up : String → SocketMessage

-- The PeerHandler that a peer's events go to, and which of its listeners that are called once are
-- still there.
pub record Listeners : Type 0 where
  pub user_id : String
  pub on_error : Bool
  pub on_connect : Bool
  pub on_close : Bool

pub data Call : Type 0 where
  revoke_object_url : String → Call
  peer_add_track : Peer → Track → MediaStream → Call
  peer_remove_track : Peer → Track → MediaStream → Call
  new_peer : Peer → Bool → Option MediaStream → Call
  peer_destroy : Peer → Call
  peer_signal : Peer → SignalData → Call
  peer_send : Peer → String → Call
  socket_emit : SocketMessage → Call

-- What `setTimeout` has been given to run later.
pub data Timeout : Type 0 where
  destroy_peers : List Peer → Timeout

pub record LocalStreams : Type 0 where
  pub camera : Option MediaStream
  pub desktop : Option MediaStream

pub record Page : Type 0 where
  pub tracks : ℕ → List Track
  pub ended : Track → Bool
  pub on_mute : Track → Option TrackHandler
  pub on_unmute : Track → Option TrackHandler
  -- what each call of createObjectURL gives, `none` for a call that throws
  pub url_results : ℕ → Option String
  pub url_calls : ℕ
  pub local_streams : LocalStreams
  -- the peers made so far, and where their events go
  pub peers_made : ℕ
  pub listeners : Peer → Option Listeners
  -- the calls of lodash's uniqueId so far
  pub unique_ids : ℕ
  -- new Date().toLocaleString()
  pub now : String
  pub calls : List Call
  pub timeouts : List Timeout

abbrev pub update {ℓ} : {A : Type ℓ} → (ℕ → A) → ℕ → A → ℕ → A
update f k v j = if k == j then v else f j

abbrev pub same_stream : MediaStream → MediaStream → Bool
same_stream a b = a.ref == b.ref

-- stream.getTracks()
abbrev pub get_tracks : Page → MediaStream → List Track
get_tracks page stream = page.tracks stream.ref

-- stream.getTracks().includes(track)
abbrev pub has_track : Page → MediaStream → Track → Bool
has_track page stream track = any (λ t. t == track) (page.tracks stream.ref)

-- stream.addTrack(track): nothing happens if the stream has the track.
abbrev pub add_track : MediaStream → Track → Page → Page
add_track stream track page = if has_track page stream track then page else record page {
  tracks = update page.tracks stream.ref (page.tracks stream.ref ++ track ∷ []);
}

-- stream.removeTrack(track)
abbrev pub remove_track : MediaStream → Track → Page → Page
remove_track stream track page = record page {
  tracks = update page.tracks stream.ref (filter (λ t. not (t == track)) (page.tracks stream.ref));
}

-- track.stop()
abbrev pub stop : Track → Page → Page
stop track page = record page { ended = update page.ended track true }

-- track.onmute = null; track.onunmute = null
abbrev pub clear_handlers : Track → Page → Page
clear_handlers track page = record page {
  on_mute = update page.on_mute track none;
  on_unmute = update page.on_unmute track none;
}

abbrev pub record_call : Call → Page → Page
record_call call page = record page { calls = page.calls ++ call ∷ [] }

-- stream.getTracks().forEach(track => track.stop())
unfoldable pub stop_tracks : MediaStream → Page → Page
stop_tracks stream page = for_each stop (get_tracks page stream) page

-- url && revokeObjectURL(url): the empty text is false too.
unfoldable pub revoke_url : Option String → Page → Page
revoke_url none page = page
revoke_url (some url) page = if url =? "" then page else record_call (revoke_object_url url) page

-- reducers/streams.ts, safeCreateObjectURL
unfoldable pub safe_create_object_url : MediaStream → Page → Option String × Page
safe_create_object_url stream page =
    (page.url_results page.url_calls, record page { url_calls = page.url_calls + 1 })

-- reducers/peers.ts: the function that HANG_UP gives to setTimeout
unfoldable pub run_timeout : Timeout → Page → Page
run_timeout (destroy_peers ps) page = for_each (λ p. record_call (peer_destroy p)) ps page

-- The first of the timeouts runs.
unfoldable pub fire_timeout : Page → Page
fire_timeout page = elim page.timeouts [
  | [] ↦ page
  | t ∷ rest ↦ run_timeout t (record page { timeouts = rest })
]

-- Whether a call gives a connection this track with this stream.
abbrev pub gives_track : Peer → Track → MediaStream → Call → Bool
gives_track peer track stream (peer_add_track p t s) =
    (p == peer) && (t == track) && same_stream s stream
gives_track peer track stream _ = false
