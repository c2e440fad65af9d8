-- ===== src/Store.antt =====
-- src/client/reducers/index.ts and src/client/store.ts: the store's state, and what the dispatch of
-- a plain action does. `combineReducers` is redux's: it gives each reducer its own slice, one after
-- the other in the order of the object that it is passed. The reducers change the page, so the page
-- goes through them in that order.
pub mod Dispatch
pub mod Refinement
use model_lib.Prelude.{Bool, true, false, ℕ, some, List, any, String, Option, [], ◌≡◌}
use model_lib.Actions.{Action, Peer, Track, MediaStream, PeerMessage, ReceivedMessage, received}
use model_lib.Page.{Page, Call, Listeners, gives_track}
use model_lib.Lodash.{Lodash}
use model_lib.Reducers.Notifications.{NotificationState, notifications}
use model_lib.Reducers.Messages
use model_lib.Reducers.Messages.{MessagesState, messages}
use model_lib.Reducers.Media
use model_lib.Reducers.Media.{MediaState, media}
use model_lib.Reducers.Nicknames
use model_lib.Reducers.Nicknames.{Nicknames, nicknames}
use model_lib.Reducers.Peers.{PeersState, peers}
use model_lib.Reducers.Streams.{StreamsState, streams}
use model_lib.Reducers.WindowStates.{WindowStates, window_states}

pub record State : Type 0 where
  pub notifications : NotificationState
  pub messages : MessagesState
  pub media : MediaState
  pub nicknames : Nicknames
  pub peers : PeersState
  pub streams : StreamsState
  pub window_states : WindowStates

-- The reducers, each as a function of its slice, the action and the page.
pub record Slices : Type 0 where
  pub notifications : NotificationState → Action → Page → NotificationState × Page
  pub messages : MessagesState → Action → Page → MessagesState × Page
  pub media : MediaState → Action → Page → MediaState × Page
  pub nicknames : Nicknames → Action → Page → Nicknames × Page
  pub peers : PeersState → Action → Page → PeersState × Page
  pub streams : StreamsState → Action → Page → StreamsState × Page
  pub window_states : WindowStates → Action → Page → WindowStates × Page

-- Each reducer in turn.
unfoldable pub in_turn : Slices → State → Action → Page → State × Page
in_turn r s a p =
    let (notifications, p₁) = r.notifications s.notifications a p in
    let (messages, p₂) = r.messages s.messages a p₁ in
    let (media, p₃) = r.media s.media a p₂ in
    let (nicknames, p₄) = r.nicknames s.nicknames a p₃ in
    let (peers, p₅) = r.peers s.peers a p₄ in
    let (streams, p₆) = r.streams s.streams a p₅ in
    let (window_states, p₇) = r.window_states s.window_states a p₆ in
    (
      record {
        notifications = notifications;
        messages = messages;
        media = media;
        nicknames = nicknames;
        peers = peers;
        streams = streams;
        window_states = window_states;
      },
      p₇,
    )

-- JSON.stringify and JSON.parse on the messages between peers: `none` where parsing throws.
pub record Json : Type 0 where
  pub stringify : PeerMessage → String
  pub parse : String → Option ReceivedMessage
  pub parse-stringify : (m : PeerMessage) → parse (stringify m) ≡ some (received m)

-- What the client relies on of the packages that the repository does not hold, and the local
-- user's id (src/client/window.ts).
pub record Env : Type 1 where
  pub lodash : Lodash
  pub combine_reducers : Slices → State → Action → Page → State × Page
  pub combine_in_turn :
      (r : Slices) (s : State) (a : Action) (p : Page) → combine_reducers r s a p ≡ in_turn r s a p
  pub json : Json
  -- Whether simple-peer's `send` returns, by the listeners of the connection's events that are
  -- still there: it throws before the event `connect`.
  pub send_returns : Option Listeners → Bool
  pub send_before_connect : (l : Listeners) → l.on_connect ≡ true → send_returns (some l) ≡ false
  -- Whether simple-peer's `addTrack` returns, by the calls made before: it throws for a track that
  -- the connection was given with the same stream.
  pub add_track_returns : List Call → Peer → Track → MediaStream → Bool
  pub add_track_again :
      (calls : List Call) (peer : Peer) (track : Track) (stream : MediaStream)
      → any (gives_track peer track stream) calls ≡ true
      → add_track_returns calls peer track stream ≡ false
  -- the decimal text of a number
  pub number_text : ℕ → String
  pub user_id : String

-- The object passed to combineReducers.
unfoldable pub slices : Env → Slices
slices env = record {
  notifications = notifications env.lodash;
  messages = λ s a p. (messages s a p.now, p);
  media = λ s a p. (media s a, p);
  nicknames = λ s a p. (nicknames env.lodash env.user_id s a, p);
  peers = peers env.lodash;
  streams = streams env.lodash;
  window_states = λ s a p. ((window_states s a).new, p);
}

-- The client at one moment: the store's state and the page.
pub record App : Type 0 where
  pub state : State
  pub page : Page

-- store.dispatch(action)
unfoldable pub dispatch : Env → Action → App → App
dispatch env a app =
    let (state, page) = env.combine_reducers (slices env) app.state a app.page in
    record { state = state; page = page }

-- The state that createStore begins with, by the nickname of localStorage and that of the page.
abbrev pub initial_state : Option String → String → State
initial_state stored nickname = record {
  notifications = [];
  messages = Messages.default_state;
  media = Media.default_state;
  nicknames = Nicknames.default_state stored nickname;
  peers = [];
  streams = [];
  window_states = [];
}
