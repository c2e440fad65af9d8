-- ===== src/Reducers/Media.antt =====
-- src/client/reducers/media.ts: devices, constraints, the dial state and the connection flag.
pub mod Dialling
use model_lib.Prelude.{String, Bool, true, false, not, ◌&&◌, List, [], if◌then◌else◌, ◌=?◌}
use model_lib.Actions
use model_lib.Actions.{
  Action, MediaDevice, VideoConstraint, AudioConstraint, AddStreamPayload, FacingMode, Async,
  pending, resolved, rejected,
}

-- constants.ts: DialState
pub data DialState : Type 0 where
  hung_up dialling in_call : DialState

pub record MediaState : Type 0 where
  pub socket_connected : Bool
  pub devices : List MediaDevice
  pub video : VideoConstraint
  pub audio : AudioConstraint
  pub dial_state : DialState
  pub loading : Bool
  pub error : String
  pub autoplay_error : Bool

abbrev pub default_state : MediaState
default_state = record {
  socket_connected = false;
  devices = [];
  video = VideoConstraint.facing FacingMode.user;
  audio = AudioConstraint.enabled true;
  dial_state = hung_up;
  loading = false;
  error = "";
  autoplay_error = false;
}

unfoldable pub handle_enumerate : MediaState → Async (List MediaDevice) → MediaState
handle_enumerate state (resolved devices) = record state { loading = false; devices = devices }
handle_enumerate state pending = record state { loading = true }
handle_enumerate state (rejected e) = record state {
  loading = false;
  error = "Could not retrieve media devices";
}

unfoldable pub handle_media_stream : MediaState → Async AddStreamPayload → MediaState
handle_media_stream state (resolved payload) = state
handle_media_stream state (rejected e) = record state { error = e.message }
handle_media_stream state pending = state

unfoldable pub handle_play : MediaState → Async (Unit {0}) → MediaState
handle_play state pending = record state { autoplay_error = false }
handle_play state (resolved _) = record state { autoplay_error = false }
handle_play state (rejected e) =
    if e.name =? "NotAllowedError" then record state { autoplay_error = true } else state

unfoldable pub handle_dial : MediaState → Async (Unit {0}) → MediaState
handle_dial state pending = record state { dial_state = dialling }
handle_dial state (resolved _) = record state { dial_state = in_call }
handle_dial state (rejected e) = record state { dial_state = hung_up }

-- the default export
unfoldable pub media : MediaState → Action → MediaState
unfolding handle_enumerate handle_media_stream handle_play handle_dial
media state (Action.media_enumerate a) = handle_enumerate state a
media state (Action.media_audio_constraint_set payload) = record state { audio = payload }
media state (Action.media_video_constraint_set payload) = record state { video = payload }
media state (Action.media_stream a) = handle_media_stream state a
media state (Action.media_play a) = handle_play state a
media state (Action.dial a) = handle_dial state a
media state Action.socket_connected = record state { socket_connected = true }
media state Action.socket_disconnected = record state { socket_connected = false }
media state Action.hang_up = record state { dial_state = hung_up }
media state _ = state

-- components/Media.tsx, mapStateToProps: whether the form to join is shown, and enabled.
abbrev pub is_hung_up : DialState → Bool
is_hung_up hung_up = true
is_hung_up _ = false

abbrev pub join_enabled : MediaState → Bool
join_enabled state = is_hung_up state.dial_state && state.socket_connected && not state.loading

abbrev pub visible : MediaState → Bool
visible state = is_hung_up state.dial_state
