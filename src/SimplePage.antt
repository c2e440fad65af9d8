-- ===== src/SimplePage.antt =====
-- src/client/index-simple.tsx: the page for trying out a connection, which has no store.
pub mod Signals
pub mod Elements
use model_lib.Prelude.{
  ℕ, zero, suc, ◌+◌, String, Bool, true, not, Option, none, some, List, [], ◌∷◌, ◌++◌, ◌==◌, ◌=?◌,
  any, filter, for_each, if◌then◌else◌,
}
use model_lib.Actions.{Peer, Track, MediaStream}
use model_lib.Page
use model_lib.Page.{Call, SocketMessage, SignalData, update}
use model_lib.Client.Capture.{Outcome, done, failed}

-- The page: how many listeners of the list of users and which listeners of signals there are (each
-- passes them to its peer), the elements in the container by their numbers, which element the
-- `onmute` of a track takes out, and the calls made on peers and the socket.
pub record SimplePage : Type 0 where
  pub users_listeners : ℕ
  pub signal_listeners : List Peer
  pub peers_made : ℕ
  pub container : List ℕ
  pub elements_made : ℕ
  pub on_mute : Track → Option ℕ
  pub enabled : Track → Bool
  pub calls : List Call

abbrev pub new_page : SimplePage
new_page = record {
  users_listeners = 0;
  signal_listeners = [];
  peers_made = 0;
  container = [];
  elements_made = 0;
  on_mute = λ t. none;
  enabled = λ t. true;
  calls = [];
}

pub data PageEvent : Type 0 where
  connected : PageEvent
  users : (initiator : String) → PageEvent
  signal : SignalData → PageEvent
  peer_signalled : SignalData → PageEvent
  -- what getUserMedia gives to a peer that has connected, with the stream's tracks
  stream_got : Peer → Outcome (MediaStream × List Track) → PageEvent
  tracked : Track → PageEvent
  muted unmuted : Track → PageEvent

-- How a listener ends.
pub data Ended : Type 0 where
  went_on threw : SimplePage → Ended

abbrev pub note_call : Call → SimplePage → SimplePage
note_call call page = record page { calls = page.calls ++ call ∷ [] }

-- $container.appendChild(el), for a new element
abbrev pub append_child : SimplePage → SimplePage
append_child page = record page {
  container = page.container ++ page.elements_made ∷ [];
  elements_made = suc page.elements_made;
}

-- $container.removeChild(el), which throws for an element that is not there
unfoldable pub remove_child : ℕ → SimplePage → Ended
remove_child el page =
    if any (λ e. e == el) page.container
    then went_on (record page { container = filter (λ e. not (e == el)) page.container })
    else threw page

-- The listener of the list of users.
unfoldable pub add_peer : (user_id initiator : String) → SimplePage → SimplePage
add_peer user_id initiator page =
    let peer = page.peers_made in
    let made =
      note_call (Call.new_peer peer (initiator =? user_id) none)
        (record page { peers_made = suc peer }) in
    record made { signal_listeners = made.signal_listeners ++ peer ∷ [] }

abbrev pub times : ℕ → (SimplePage → SimplePage) → SimplePage → SimplePage
times zero f page = page
times (suc n) f page = times n f (f page)

unfoldable pub show_stream : Peer → Outcome (MediaStream × List Track) → SimplePage → SimplePage
show_stream peer (failed e) page = page
show_stream peer (done got) page =
    for_each (λ t. note_call (Call.peer_add_track peer t got.0)) got.1 (append_child page)

unfoldable pub show_track : Track → SimplePage → SimplePage
show_track track page =
    let shown = append_child (record page { enabled = update page.enabled track true }) in
    record shown { on_mute = update shown.on_mute track (some page.elements_made) }

module _ (user_id call_id : String) where
  unfoldable pub page_event : PageEvent → SimplePage → Ended
  page_event connected page = went_on (
      note_call (Call.socket_emit (SocketMessage.ready call_id "test" user_id))
        (record page { users_listeners = suc page.users_listeners }))
  page_event (users initiator) page =
      went_on (times page.users_listeners (add_peer user_id initiator) page)
  page_event (signal data') page =
      went_on
        (for_each (λ peer. note_call (Call.peer_signal peer data')) page.signal_listeners page)
  page_event (peer_signalled data') page =
      went_on (note_call (Call.socket_emit (SocketMessage.signal user_id data')) page)
  page_event (stream_got peer outcome) page = went_on (show_stream peer outcome page)
  page_event (tracked track) page = went_on (show_track track page)
  page_event (muted track) page = elim (page.on_mute track) [
    | none ↦ went_on page
    | some el ↦ remove_child el page
  ]
  page_event (unmuted track) page = went_on page

-- The page after a listener, whether it has thrown or not.
abbrev pub page_of : Ended → SimplePage
page_of (went_on page) = page
page_of (threw page) = page
