-- ===== src/Client/Middleware/Kinds.antt =====
-- The types of the actions (src/client/constants.ts), which the reducers' cases compare with.
use model_lib.Prelude.{String, Option, none, some, List, [], ◌∷◌, if◌then◌else◌, ◌=?◌, ◌≡◌, refl}
use model_lib.Actions.{Action, Async, pending, resolved, rejected}

-- The kinds of actions.
pub data Kind : Type 0 where
  notify notify_dismiss notify_clear message_add media_enumerate media_stream media_play : Kind
  media_video_constraint_set media_audio_constraint_set dial hang_up : Kind
  socket_connected socket_disconnected nicknames_set nickname_remove peer_add peer_remove : Kind
  stream_add stream_remove stream_track_add stream_track_remove minimize_toggle : Kind

abbrev pub kind : Action → Kind
kind (Action.notify n) = notify
kind (Action.notify_dismiss id) = notify_dismiss
kind Action.notify_clear = notify_clear
kind (Action.message_add m) = message_add
kind (Action.media_enumerate a) = media_enumerate
kind (Action.media_stream a) = media_stream
kind (Action.media_play a) = media_play
kind (Action.media_video_constraint_set c) = media_video_constraint_set
kind (Action.media_audio_constraint_set c) = media_audio_constraint_set
kind (Action.dial a) = dial
kind Action.hang_up = hang_up
kind Action.socket_connected = socket_connected
kind Action.socket_disconnected = socket_disconnected
kind (Action.nicknames_set ns) = nicknames_set
kind (Action.nickname_remove user_id) = nickname_remove
kind (Action.peer_add user_id peer) = peer_add
kind (Action.peer_remove user_id) = peer_remove
kind (Action.stream_add p) = stream_add
kind (Action.stream_remove p) = stream_remove
kind (Action.stream_track_add p) = stream_track_add
kind (Action.stream_track_remove p) = stream_track_remove
kind (Action.minimize_toggle p) = minimize_toggle

-- The constants.
unfoldable pub kind_text : Kind → String
kind_text notify = "NOTIFY"
kind_text notify_dismiss = "NOTIFY_DISMISS"
kind_text notify_clear = "NOTIFY_CLEAR"
kind_text message_add = "MESSAGE_ADD"
kind_text media_enumerate = "MEDIA_ENUMERATE"
kind_text media_stream = "MEDIA_STREAM"
kind_text media_play = "MEDIA_PLAY"
kind_text media_video_constraint_set = "MEDIA_VIDEO_CONSTRAINT_SET"
kind_text media_audio_constraint_set = "MEDIA_AUDIO_CONSTRAINT_SET"
kind_text dial = "DIAL"
kind_text hang_up = "HANG_UP"
kind_text socket_connected = "SOCKET_CONNECTED"
kind_text socket_disconnected = "SOCKET_DISCONNECTED"
kind_text nicknames_set = "NICKNAMES_SET"
kind_text nickname_remove = "NICKNAME_REMOVE"
kind_text peer_add = "PEER_ADD"
kind_text peer_remove = "PEER_REMOVE"
kind_text stream_add = "PEER_STREAM_ADD"
kind_text stream_remove = "PEER_STREAM_REMOVE"
kind_text stream_track_add = "PEER_STREAM_TRACK_ADD"
kind_text stream_track_remove = "PEER_STREAM_TRACK_REMOVE"
kind_text minimize_toggle = "MINIMIZE_TOGGLE"

-- All kinds, and the first whose text this is.
abbrev kinds : List Kind
kinds =
    notify ∷ notify_dismiss ∷ notify_clear ∷ message_add ∷ media_enumerate ∷ media_stream
    ∷ media_play ∷ media_video_constraint_set ∷ media_audio_constraint_set ∷ dial ∷ hang_up
    ∷ socket_connected ∷ socket_disconnected ∷ nicknames_set ∷ nickname_remove ∷ peer_add
    ∷ peer_remove ∷ stream_add ∷ stream_remove ∷ stream_track_add ∷ stream_track_remove
    ∷ minimize_toggle ∷ []

abbrev find : String → List Kind → Option Kind
find t [] = none
find t (k ∷ ks) = let rest = find t ks in if t =? kind_text k then some k else rest

unfoldable pub kind_of : String → Option Kind
kind_of t = find t kinds

-- Each kind has a text of its own.
pub kind_of-kind_text : (k : Kind) → kind_of (kind_text k) ≡ some k
unfolding kind_of kind_text
kind_of-kind_text notify = refl
kind_of-kind_text notify_dismiss = refl
kind_of-kind_text notify_clear = refl
kind_of-kind_text message_add = refl
kind_of-kind_text media_enumerate = refl
kind_of-kind_text media_stream = refl
kind_of-kind_text media_play = refl
kind_of-kind_text media_video_constraint_set = refl
kind_of-kind_text media_audio_constraint_set = refl
kind_of-kind_text dial = refl
kind_of-kind_text hang_up = refl
kind_of-kind_text socket_connected = refl
kind_of-kind_text socket_disconnected = refl
kind_of-kind_text nicknames_set = refl
kind_of-kind_text nickname_remove = refl
kind_of-kind_text peer_add = refl
kind_of-kind_text peer_remove = refl
kind_of-kind_text stream_add = refl
kind_of-kind_text stream_remove = refl
kind_of-kind_text stream_track_add = refl
kind_of-kind_text stream_track_remove = refl
kind_of-kind_text minimize_toggle = refl

abbrev status_of {ℓ} : {P : Type ℓ} → Async P → Option String
status_of pending = some "pending"
status_of (resolved p) = some "resolved"
status_of (rejected e) = some "rejected"

abbrev pub status : Action → Option String
status (Action.media_enumerate a) = status_of a
status (Action.media_stream a) = status_of a
status (Action.media_play a) = status_of a
status (Action.dial a) = status_of a
status _ = none
