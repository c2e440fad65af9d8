-- ===== src/Components/Toolbar.antt =====
-- src/client/components/Toolbar.tsx: the count of unread messages and the buttons that mute.
pub mod Unread
pub mod Muting
pub mod View
use model_lib.Prelude.{ℕ, ◌-◌, Bool, false, not, List, for_each, ltb, if◌then◌else◌}
use model_lib.Actions.{Track}
use model_lib.Page.{update}

pub record ToolbarState : Type 0 where
  pub read_messages : ℕ
  pub cam_disabled : Bool
  pub mic_muted : Bool
  pub full_screen_enabled : Bool

-- The constructor, from the prop messagesCount.
abbrev pub initial_toolbar : ℕ → ToolbarState
initial_toolbar messages_count = record {
  read_messages = messages_count;
  cam_disabled = false;
  mic_muted = false;
  full_screen_enabled = false;
}

-- The toolbar with the `enabled` attribute of the tracks.
pub record Muted : Type 0 where
  pub state : ToolbarState
  pub enabled : Track → Bool

abbrev pub toggle_track : Track → (Track → Bool) → Track → Bool
toggle_track track enabled = update enabled track (not (enabled track))

-- handleMicClick, for the audio tracks that the stream has
unfoldable pub handle_mic_click : List Track → Muted → Muted
handle_mic_click audio_tracks m = record {
  state = record m.state { mic_muted = not m.state.mic_muted };
  enabled = for_each toggle_track audio_tracks m.enabled;
}

-- handleCamClick, for the video tracks that the stream has
unfoldable pub handle_cam_click : List Track → Muted → Muted
handle_cam_click video_tracks m = record {
  state = record m.state { cam_disabled = not m.state.cam_disabled };
  enabled = for_each toggle_track video_tracks m.enabled;
}

-- handleFullscreenClick, by what screenfull says: whether it is enabled, and whether the page fills
-- the screen after its `toggle`
unfoldable pub handle_fullscreen_click :
    (is_enabled is_fullscreen : Bool) → ToolbarState → ToolbarState
handle_fullscreen_click is_enabled is_fullscreen state =
    if is_enabled then record state { full_screen_enabled = not is_fullscreen } else state

-- handleToggleChat, without the call of onToggleChat
unfoldable pub handle_toggle_chat : ℕ → ToolbarState → ToolbarState
handle_toggle_chat messages_count state = record state { read_messages = messages_count }

-- messagesCount - readMessages
abbrev pub unread_count : ℕ → ToolbarState → ℕ
unread_count messages_count state = messages_count - state.read_messages

abbrev pub has_unread : ℕ → ToolbarState → Bool
has_unread messages_count state = ltb 0 (unread_count messages_count state)
