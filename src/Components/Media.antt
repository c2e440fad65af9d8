-- ===== src/Components/Media.antt =====
-- src/client/components/Media.tsx: the form to join a call, and the message about videos that the
-- browser does not play.
pub mod Choosing
pub mod Submitting
use model_lib.Prelude.{
  String, ◌≡◌, Bool, true, false, not, Option, none, some, List, [], ◌∷◌, ◌++◌, map, filter,
  if◌then◌else◌, ◌=?◌,
}
use model_lib.Actions
use model_lib.Actions.{
  Action, MediaDevice, DeviceType, audioinput, videoinput, VideoConstraint, AudioConstraint,
  FacingMode,
}
use model_lib.Reducers.Media.{MediaState, join_enabled, visible}
use model_lib.Store.{Env, App, dispatch}
use model_lib.Components.Html
use model_lib.Components.Html.{Handler, Attribute, has, flag, on, Html, text, el, class_name, when}
use model_lib.Components.Simple.{alert, alerts}

-- JSON.stringify and JSON.parse on constraints: `none` where parsing throws.
pub record ConstraintJson : Type 0 where
  pub video_text : VideoConstraint → String
  pub audio_text : AudioConstraint → String
  pub parse_video : String → Option VideoConstraint
  pub parse_audio : String → Option AudioConstraint
  -- JSON.stringify({ deviceId: id })
  pub device_text : String → String
  pub parse_video-video_text : (c : VideoConstraint) → parse_video (video_text c) ≡ some c
  pub parse_audio-audio_text : (c : AudioConstraint) → parse_audio (audio_text c) ≡ some c
  pub video_device : (id : String) → video_text (VideoConstraint.device id) ≡ device_text id
  pub audio_device : (id : String) → audio_text (AudioConstraint.device id) ≡ device_text id
  pub video_false : video_text (VideoConstraint.enabled false) ≡ "false"
  pub audio_false : audio_text (AudioConstraint.enabled false) ≡ "false"
  pub audio_true : audio_text (AudioConstraint.enabled true) ≡ "true"
  pub video_user : video_text (VideoConstraint.facing FacingMode.user) ≡ "{\"facingMode\":\"user\"}"

abbrev pub same_type : DeviceType → DeviceType → Bool
same_type audioinput audioinput = true
same_type videoinput videoinput = true
same_type audioinput videoinput = false
same_type videoinput audioinput = false

abbrev pub type_text : DeviceType → String
type_text audioinput = "audioinput"
type_text videoinput = "videoinput"

-- labels
abbrev pub label_of : DeviceType → String
label_of audioinput = "Audio"
label_of videoinput = "Video"

-- device.name || device.type
abbrev pub device_name : MediaDevice → String
device_name device = if device.name =? "" then type_text device.type else device.name

abbrev pub default_value : Option String → List Attribute
default_value none = []
default_value (some nickname) = has "defaultValue" nickname ∷ []

unfoldable pub option_html : String × List String → Html
option_html o = el "option" (has "value" o.0 ∷ []) (map text o.1)

-- AutoplayMessage
unfoldable pub autoplay_message : List Html
autoplay_message =
    text
      "Your browser has blocked video autoplay on this page. To continue with your call, please press the play button:  "
    ∷ el "button" (class_name "button" ∷ on "click" (Handler.play ∷ []) ∷ []) (text "Play" ∷ [])
    ∷ []

module _ (json : ConstraintJson) where
  -- The values of the options, and the names that the user reads.
  unfoldable pub options :
      DeviceType → (default' : String) → List MediaDevice → List (String × List String)
  options type default' devices =
      ("false", "No " ∷ label_of type ∷ [])
      ∷ (default', "Default " ∷ label_of type ∷ [])
      ∷ map (λ d. (json.device_text d.id, device_name d ∷ []))
          (filter (λ d. same_type d.type type) devices)

  -- Options
  unfoldable pub options_html : DeviceType → (default' : String) → List MediaDevice → List Html
  unfolding options
  options_html type default' devices = map option_html (options type default' devices)

  -- MediaForm.render, where it is shown; `nickname` is the prop of this name.
  unfoldable pub media_form_html : Option String → MediaState → Html
  media_form_html nickname media =
      el "form" (class_name "media" ∷ on "submit" (Handler.submit_form ∷ []) ∷ []) (
        el "input"
          (flag "required" true
              ∷ has "name" "nickname"
              ∷ has "type" "text"
              ∷ has "placeholder" "Nickname"
              ∷ default_value nickname
            ++ flag "autoFocus" true ∷ [])
          []
        ∷ el "select"
            (has "name" "video-input"
              ∷ on "change" (Handler.change_video ∷ [])
              ∷ has "value" (json.video_text media.video)
              ∷ [])
            (options_html videoinput "{\"facingMode\":\"user\"}" media.devices)
        ∷ el "select"
            (has "name" "audio-input"
              ∷ on "change" (Handler.change_audio ∷ [])
              ∷ has "value" (json.audio_text media.audio)
              ∷ [])
            (options_html audioinput "true" media.devices)
        ∷ el "button" (has "type" "submit" ∷ flag "disabled" (not (join_enabled media)) ∷ [])
            (text "Join Call" ∷ [])
        ∷ [])

  -- Media
  unfoldable pub media_html : Option String → MediaState → Html
  unfolding media_form_html
  media_html nickname media = el "div" (class_name "media-container" ∷ []) (
      alerts (when media.autoplay_error (alert autoplay_message))
      ∷ when (visible media) (media_form_html nickname media))

  -- handleVideoChange and handleAudioChange, with the dispatch of the action: nothing happens where
  -- JSON.parse throws.
  unfoldable pub handle_video_change : Env → String → App → App
  handle_video_change env value app = elim (json.parse_video value) [
    | none ↦ app
    | some c ↦ dispatch env (Action.media_video_constraint_set c) app
  ]

  unfoldable pub handle_audio_change : Env → String → App → App
  handle_audio_change env value app = elim (json.parse_audio value) [
    | none ↦ app
    | some c ↦ dispatch env (Action.media_audio_constraint_set c) app
  ]
