-- ===== src/Components/Toolbar/View.antt =====
-- src/client/components/Toolbar.tsx: the buttons.
use model_lib.Prelude.{
  ℕ, String, Bool, true, false, not, ◌&&◌, Option, none, some, is_some, [], ◌∷◌, ◌++◌, ltb,
  if◌then◌else◌,
}
use model_lib.Components.Html.{Handler, class, has, flag, on, Html, text, el, class_name, when}
use model_lib.Reducers.Media.{DialState, in_call}
use model_lib.Reducers.Streams.{StreamWithUrl}
use model_lib.Components.Toolbar.{ToolbarState, unread_count, has_unread}

pub record ToolbarProps : Type 0 where
  pub dial_state : DialState
  pub messages_count : ℕ
  pub stream : Option StreamWithUrl
  pub desktop_stream : Option StreamWithUrl
  pub chat_visible : Bool

-- An absent badge is 0, and an absent flag is false.
pub record ToolbarButtonProps : Type 0 where
  pub class_name : String
  pub badge : ℕ
  pub blink : Bool
  pub on_click : Handler
  pub icon : String
  pub off_icon : Option String
  pub is_on : Bool
  pub title : String

-- !on && offIcon ? offIcon : icon
abbrev pub chosen_icon : Bool → Option String → String → String
chosen_icon is_on none icon = icon
chosen_icon is_on (some off_icon) icon = if is_on then icon else off_icon

abbrev pub plain_button : (class_name icon title : String) → Handler → ToolbarButtonProps
plain_button class_name icon title handler = record {
  class_name = class_name;
  badge = 0;
  blink = false;
  on_click = handler;
  icon = icon;
  off_icon = none;
  is_on = false;
  title = title;
}

abbrev pub is_in_call : DialState → Bool
is_in_call in_call = true
is_in_call _ = false

abbrev chat_button : ToolbarProps → ToolbarState → ToolbarButtonProps
chat_button props state =
    record (plain_button "chat" "icon-question_answer" "Toggle Chat" Handler.toggle_chat) {
      badge = unread_count props.messages_count state;
      blink = not props.chat_visible && has_unread props.messages_count state;
      is_on = props.chat_visible;
    }

abbrev file_button : ToolbarButtonProps
file_button = plain_button "send-file" "icon-file-text2" "Send File" Handler.send_file

abbrev desktop_button : ToolbarProps → ToolbarButtonProps
desktop_button props =
    record (plain_button "stream-desktop" "icon-display" "Share Desktop"
      Handler.toggle_share_desktop) { is_on = is_some props.desktop_stream }

-- A button with one icon when it is on and another when it is not.
abbrev switch : (class_name icon off_icon title : String) → Handler → Bool → ToolbarButtonProps
switch class_name icon off_icon title handler is_on =
    record (plain_button class_name icon title handler) { off_icon = some off_icon; is_on = is_on }

abbrev mic_button : ToolbarState → ToolbarButtonProps
mic_button state =
    switch "mute-audio" "icon-mic_off" "icon-mic" "Toggle Microphone" Handler.click_mic
      state.mic_muted

abbrev cam_button : ToolbarState → ToolbarButtonProps
cam_button state =
    switch "mute-video" "icon-videocam_off" "icon-videocam" "Toggle Camera" Handler.click_cam
      state.cam_disabled

abbrev fullscreen_button : ToolbarState → ToolbarButtonProps
fullscreen_button state =
    switch "fullscreen" "icon-fullscreen_exit" "icon-fullscreen" "Toggle Fullscreen"
      Handler.click_fullscreen state.full_screen_enabled

abbrev hang_up_button : ToolbarButtonProps
hang_up_button = plain_button "hangup" "icon-call_end" "Hang Up" Handler.hang_up

-- `number_text` is the decimal text of a number.
module _ (number_text : ℕ → String) where
  unfoldable pub toolbar_button : ToolbarButtonProps → Html
  toolbar_button props =
      el "a"
        (class (
            ("button", true)
            ∷ (props.class_name, true)
            ∷ ("blink", props.blink)
            ∷ ("on", props.is_on)
            ∷ [])
          ∷ on "click" (props.on_click ∷ [])
          ∷ has "href" "#"
          ∷ [])
        (el "span"
            (class (("icon", true) ∷ (chosen_icon props.is_on props.off_icon props.icon, true) ∷ [])
              ∷ [])
            (when (ltb 0 props.badge)
              (el "span" (class_name "badge" ∷ []) (text (number_text props.badge) ∷ [])))
          ∷ el "span" (class_name "tooltip" ∷ []) (text props.title ∷ [])
          ∷ [])

  -- render
  unfoldable pub toolbar_html : ToolbarProps → ToolbarState → Html
  unfolding toolbar_button
  toolbar_html props state =
      let calling = is_in_call props.dial_state in
      let sharing = is_some props.stream in
      let buttons =
        when calling (toolbar_button (chat_button props state))
        ++ when calling (toolbar_button file_button)
        ++ when calling (toolbar_button (desktop_button props))
        ++ when sharing (toolbar_button (mic_button state))
        ++ when sharing (toolbar_button (cam_button state))
        ++ toolbar_button (fullscreen_button state)
          ∷ when calling (toolbar_button hang_up_button) in
      el "div" (class_name "toolbar active" ∷ []) (
        el "input"
          (has "style" "display: none"
            ∷ has "type" "file"
            ∷ flag "multiple" true
            ∷ on "change" (Handler.select_files ∷ [])
            ∷ [])
          []
        ∷ buttons)
