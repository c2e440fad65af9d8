-- ===== src/Client/Events.antt =====
-- The client under every sequence of events: those of peers, tracks, the server and the user
-- (src/client/actions).
pub mod Handlers
pub mod Histories
use model_lib.Prelude.{String, Option, List, for_each}
use model_lib.Lodash.{IsPlainKey}
use model_lib.Actions.{Action, MediaStream, Peer, Track, PeerMessage}
use model_lib.Page.{SignalData, fire_timeout}
use model_lib.Reducers.Streams.Invariant.{HasPlainIds}
use model_lib.Store.{Env, App, dispatch}
use model_lib.Client.PeerHandler.{PeerEvent, app_of, on_page, fire_mute, fire_unmute, peer_event}
use model_lib.Client.SocketHandler
use model_lib.Client.SocketHandler.{Users, handle_users, handle_hang_up}
use model_lib.Client.Chat.{send_message}
use model_lib.Client.Calls.{hang_up}

pub data ClientEvent : Type 0 where
  peer_fires : Peer → PeerEvent → ClientEvent
  track_mutes track_unmutes : Track → ClientEvent
  signal_comes : String → SignalData → ClientEvent
  users_come : Option MediaStream → Users → ClientEvent
  hang_up_comes : String → ClientEvent
  user_hangs_up timeout_fires : ClientEvent
  user_sends : PeerMessage → ClientEvent
  acts : Action → ClientEvent

-- The ids of users who leave are plain keys.
abbrev pub IsPossible : ClientEvent → Type 0
IsPossible (hang_up_comes user_id) = IsPlainKey user_id
IsPossible (acts a) = HasPlainIds a
IsPossible _ = Unit

module _ (env : Env) where
  unfoldable pub after_event : ClientEvent → App → App
  after_event (peer_fires peer e) app = app_of (peer_event env peer e app)
  after_event (track_mutes t) app = fire_mute env t app
  after_event (track_unmutes t) app = fire_unmute env t app
  after_event (signal_comes user_id data') app = SocketHandler.handle_signal env user_id data' app
  after_event (users_come stream users) app = handle_users env stream users app
  after_event (hang_up_comes user_id) app = handle_hang_up env user_id app
  after_event user_hangs_up app = hang_up env app
  after_event timeout_fires app = on_page fire_timeout app
  after_event (user_sends m) app = app_of (send_message env m app)
  after_event (acts a) app = dispatch env a app

  abbrev pub run_events : List ClientEvent → App → App
  run_events events app = for_each after_event events app
