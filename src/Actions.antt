-- ===== src/Actions.antt =====
-- The actions of src/client/actions with their payloads, as the reducers receive them, and the
-- three statuses of an asynchronous action (src/client/async/action.ts).
use model_lib.Prelude.{ℕ, String, Bool, Option, none, some, List}
use model_lib.Prelude.Dict.{Dict}

-- Objects of the browser and of simple-peer are handles: two values are the same object when
-- their handles are the same number.
abbrev pub Track : Type 0
Track = ℕ

abbrev pub Peer : Type 0
Peer = ℕ

-- A `MediaStream`: which object it is, and its `id` attribute, which never changes.
pub record MediaStream : Type 0 where
  pub ref : ℕ
  pub id : String

pub data StreamType : Type 0 where
  camera desktop : StreamType

pub record AddStreamPayload : Type 0 where
  pub user_id : String
  pub type : Option StreamType
  pub stream : MediaStream

pub record RemoveStreamPayload : Type 0 where
  pub user_id : String
  pub stream : MediaStream

-- The payload of adding and of removing a track.
pub record StreamTrackPayload : Type 0 where
  pub user_id : String
  pub stream : MediaStream
  pub track : Track

pub record MinimizeTogglePayload : Type 0 where
  pub user_id : String
  pub stream_id : Option String

pub data NotifyType : Type 0 where
  info warning error : NotifyType

pub record Notification : Type 0 where
  pub id : String
  pub type : NotifyType
  pub message : String

-- A chat message; `system` is false where the source leaves it out.
pub record Message : Type 0 where
  pub user_id : String
  pub message : String
  pub timestamp : String
  pub image : Option String
  pub system : Bool

pub data DeviceType : Type 0 where
  audioinput videoinput : DeviceType

pub record MediaDevice : Type 0 where
  pub id : String
  pub name : String
  pub type : DeviceType

pub data FacingMode : Type 0 where
  user environment : FacingMode

pub data VideoConstraint : Type 0 where
  device : String → VideoConstraint
  enabled : Bool → VideoConstraint
  facing : FacingMode → VideoConstraint
  facing_exact : FacingMode → VideoConstraint

pub data AudioConstraint : Type 0 where
  device : String → AudioConstraint
  enabled : Bool → AudioConstraint

-- The `name` and `message` of a JavaScript Error.
pub record Error : Type 0 where
  pub name : String
  pub message : String

-- The status of an asynchronous action, with its payload.
pub data Async {ℓ} (P : Type ℓ) : Type ℓ where
  pending : Async P
  resolved : P → Async P
  rejected : Error → Async P

pub data Action : Type 0 where
  notify : Notification → Action
  notify_dismiss : String → Action
  notify_clear : Action
  message_add : Message → Action
  media_enumerate : Async (List MediaDevice) → Action
  media_stream : Async AddStreamPayload → Action
  media_play : Async (Unit {0}) → Action
  media_video_constraint_set : VideoConstraint → Action
  media_audio_constraint_set : AudioConstraint → Action
  dial : Async (Unit {0}) → Action
  hang_up : Action
  socket_connected : Action
  socket_disconnected : Action
  nicknames_set : Dict String → Action
  nickname_remove : String → Action
  peer_add : String → Peer → Action
  peer_remove : String → Action
  stream_add : AddStreamPayload → Action
  stream_remove : RemoveStreamPayload → Action
  stream_track_add : StreamTrackPayload → Action
  stream_track_remove : StreamTrackPayload → Action
  minimize_toggle : MinimizeTogglePayload → Action

-- PeerActions.ts: Message, as it is sent to the peers
pub data PeerMessage : Type 0 where
  text : String → PeerMessage
  file : (name : String) (size : ℕ) (type data_url : String) → PeerMessage

-- What JSON.parse gives for a message from a peer: its `userId`, and the two payloads that
-- `handleData` tells apart.
pub data ReceivedMessage : Type 0 where
  file : Option String → (name data_url : String) → ReceivedMessage
  other : Option String → (payload : String) → ReceivedMessage

abbrev pub received : PeerMessage → ReceivedMessage
received (PeerMessage.text payload) = ReceivedMessage.other none payload
received (PeerMessage.file name size type data_url) = ReceivedMessage.file none name data_url

-- constants.ts: ME
abbrev pub me : String
me = "_me_"

-- async/action.ts, isRejectedAction: the error of an action whose status is rejected.
abbrev pub error_of_async {ℓ} : {P : Type ℓ} → Async P → Option Error
error_of_async pending = none
error_of_async (resolved p) = none
error_of_async (rejected e) = some e

abbrev pub rejected_error : Action → Option Error
rejected_error (media_enumerate a) = error_of_async a
rejected_error (media_stream a) = error_of_async a
rejected_error (media_play a) = error_of_async a
rejected_error (dial a) = error_of_async a
rejected_error _ = none
