-- ===== src/Tests/Pages.antt =====
-- Instances of the theorems on the page and its form.
use mathlib.Core.List.{reverse}
use Prim.Native.Char.{code}
use Prim.Native.String.{[], ◌∷◌}
use model_lib.Prelude.{
  map, ◌-◌, ◌≤◌, String, ◌≡◌, refl, true, false, Option, none, some, List, [], ◌∷◌, ◌++◌, length,
  All, ◌==◌, ◌=?◌, if◌then◌else◌, arith,
}
use model_lib.Actions.{
  VideoConstraint, AudioConstraint, FacingMode, Notification, NotifyType, DeviceType, me,
}
use model_lib.Store.{App, State}
use model_lib.Reducers.Media.{is_hung_up}
use model_lib.Reducers.Nicknames.{get_nickname}
use model_lib.Client.Calls.{start}
use model_lib.Client.Capture.{DeviceInfo, DeviceKind, devices_listed, done}
use model_lib.Page.{Call}
use model_lib.Actions.{PeerMessage}
use model_lib.Client.PeerHandler.{returned, handle_data}
use model_lib.Components.Html.Queries.{offers, texts}
use model_lib.Client.Chat.{can_send}
use model_lib.Client.Chat.Reaching.{all_can_send, reached, sends}
use model_lib.Components.Chat.Resubmitting.{submit-shown_twice}
use model_lib.Components.Input.{Field, submit}
use model_lib.Components.Input.View.{smiles}
use model_lib.Components.Chat.{chat_html}
use model_lib.Components.Chat.Shown.{own_row, rows, submit-shown_everywhere}
use model_lib.Components.Toolbar.{initial_toolbar}
use model_lib.Components.Toolbar.View.{is_in_call}
use model_lib.Components.Media.{ConstraintJson, options, handle_video_change, handle_audio_change}
use model_lib.Components.Media.Choosing.{choosing_selects}
use model_lib.Components.Notifications.{render}
use model_lib.Components.Notifications.Newest.{render_newest}
use model_lib.Reducers.Notifications.{NotificationState}
use model_lib.Prelude.Dict.{get, keys}
use model_lib.Components.Application.{PageState, app_html, on_hangup}
use model_lib.Components.Application.Offers.{Tool, is_tool, is_submit, app_html-offers}
use model_lib.Components.Application.HangingUp.{on_hangup-offers}
use model_lib.Tests.Data.{bob_heard}
use model_lib.Tests.Environment
use model_lib.Tests.Environment.{env}

abbrev device_text : String → String
device_text id = String.◌∷◌ "d" id

abbrev user_text : String
user_text = "{\"facingMode\":\"user\"}"

abbrev video_text : VideoConstraint → String
video_text (VideoConstraint.device id) = device_text id
video_text (VideoConstraint.enabled false) = "false"
video_text (VideoConstraint.enabled true) = "true"
video_text (VideoConstraint.facing FacingMode.user) = user_text
video_text (VideoConstraint.facing FacingMode.environment) = "e"
video_text (VideoConstraint.facing_exact FacingMode.user) = "xu"
video_text (VideoConstraint.facing_exact FacingMode.environment) = "xe"

abbrev audio_text : AudioConstraint → String
audio_text (AudioConstraint.device id) = device_text id
audio_text (AudioConstraint.enabled false) = "false"
audio_text (AudioConstraint.enabled true) = "true"

abbrev fixed_video : String → Option VideoConstraint
fixed_video s =
    if s =? "false"
    then some (VideoConstraint.enabled false)
    else if s =? "true"
    then some (VideoConstraint.enabled true)
    else if s =? user_text
    then some (VideoConstraint.facing FacingMode.user)
    else if s =? "e"
    then some (VideoConstraint.facing FacingMode.environment)
    else if s =? "xu"
    then some (VideoConstraint.facing_exact FacingMode.user)
    else some (VideoConstraint.facing_exact FacingMode.environment)

abbrev parse_video : String → Option VideoConstraint
parse_video [] = none
parse_video (c ∷ s) =
    if code c == b'd' then some (VideoConstraint.device s) else fixed_video (String.◌∷◌ c s)

abbrev parse_audio : String → Option AudioConstraint
parse_audio [] = none
parse_audio (c ∷ s) =
    if code c == b'd'
    then some (AudioConstraint.device s)
    else if String.◌∷◌ c s =? "false"
    then some (AudioConstraint.enabled false)
    else some (AudioConstraint.enabled true)

parse_video-video_text : (c : VideoConstraint) → parse_video (video_text c) ≡ some c
parse_video-video_text (VideoConstraint.device id) = refl
parse_video-video_text (VideoConstraint.enabled false) = refl
parse_video-video_text (VideoConstraint.enabled true) = refl
parse_video-video_text (VideoConstraint.facing FacingMode.user) = refl
parse_video-video_text (VideoConstraint.facing FacingMode.environment) = refl
parse_video-video_text (VideoConstraint.facing_exact FacingMode.user) = refl
parse_video-video_text (VideoConstraint.facing_exact FacingMode.environment) = refl

parse_audio-audio_text : (c : AudioConstraint) → parse_audio (audio_text c) ≡ some c
parse_audio-audio_text (AudioConstraint.device id) = refl
parse_audio-audio_text (AudioConstraint.enabled false) = refl
parse_audio-audio_text (AudioConstraint.enabled true) = refl

abbrev json : ConstraintJson
json = record {
  video_text = video_text;
  audio_text = audio_text;
  parse_video = parse_video;
  parse_audio = parse_audio;
  device_text = device_text;
  parse_video-video_text = parse_video-video_text;
  parse_audio-audio_text = parse_audio-audio_text;
  video_device = λ id. refl;
  audio_device = λ id. refl;
  video_false = refl;
  audio_false = refl;
  audio_true = refl;
  video_user = refl;
}

abbrev devices : List DeviceInfo
devices =
    record { device_id = "m1"; kind = DeviceKind.audio_input; label = "" }
    ∷ record { device_id = "s1"; kind = DeviceKind.audio_output; label = "Speaker" }
    ∷ record { device_id = "c1"; kind = DeviceKind.video_input; label = "Camera" }
    ∷ []

abbrev listed : App
listed = devices_listed env (done devices) Environment.in_call

choosing_selects_example :
    All
      (λ o. json.video_text (handle_video_change json env o.0 listed).state.media.video ≡ o.0)
      (options json DeviceType.videoinput "{\"facingMode\":\"user\"}" listed.state.media.devices)
    × All
        (λ o. json.audio_text (handle_audio_change json env o.0 listed).state.media.audio ≡ o.0)
        (options json DeviceType.audioinput "true" listed.state.media.devices)
choosing_selects_example = choosing_selects json env listed

abbrev page_state : PageState
page_state = record {
  chat_visible = true;
  toolbar = initial_toolbar 0;
  message = "";
  menus = λ key. record { is_open = false };
}

abbrev state : State
state = Environment.in_call.state

app_html-offers_example :
    ((tool : Tool)
      → offers (is_tool tool) (app_html env json state page_state)
        ≡ is_in_call state.media.dial_state)
    × (offers is_submit (app_html env json state page_state) ≡ is_hung_up state.media.dial_state)
app_html-offers_example = app_html-offers env json state page_state

abbrev after_hangup : App
after_hangup = (on_hangup env "room" none (start Environment.in_call)).app

on_hangup-offers_example :
    (after_hangup.state.streams ≡ [])
    × (after_hangup.state.peers ≡ [])
    × ((on_hangup env "room" none (start Environment.in_call)).on_users ≡ [])
    × ((on_hangup env "room" none (start Environment.in_call)).on_signal ≡ [])
    × ((on_hangup env "room" none (start Environment.in_call)).on_hang_up ≡ [])
    × (offers is_submit (app_html env json after_hangup.state page_state) ≡ true)
    × ((tool : Tool)
        → offers (is_tool tool) (app_html env json after_hangup.state page_state) ≡ false)
on_hangup-offers_example = on_hangup-offers env "room" json page_state (start Environment.in_call)

abbrev field : Field
field = record { message = "Hello"; app = Environment.in_call }

abbrev sent : String
sent = env.json.stringify (PeerMessage.text "Hello")

all_there : all_can_send env Environment.in_call.page Environment.in_call.state.peers ≡ true
unfolding can_send
all_there = refl

submit-shown_everywhere_example :
    ((submit env field).app.page.calls
      ≡ Environment.in_call.page.calls ++ map (λ e. Call.peer_send e.1 sent) state.peers)
    × ((submit env field).message ≡ "")
    × (texts (
          chat_html true state.nicknames
            (submit env field).app.state.messages.list
            (submit env field).message)
        ≡ "Chat"
            ∷ (rows state.nicknames state.messages.list
                ++ get_nickname state.nicknames me ∷ Environment.in_call.page.now ∷ "Hello" ∷ [])
          ++ smiles)
    × ((peer' : App) × (handle_data
            (record env { user_id = "alice" })
            "carol"
            sent
            Environment.in_call
          ≡ returned peer')
        × (texts (chat_html false [] peer'.state.messages.list "Hi")
            ≡ "Chat"
                ∷ (rows [] state.messages.list
                    ++ get_nickname [] "carol" ∷ Environment.in_call.page.now ∷ "Hello" ∷ [])
              ++ smiles))
submit-shown_everywhere_example =
    submit-shown_everywhere env field true state.nicknames "alice" "carol" Environment.in_call false
      [] "Hi" refl all_there

abbrev waiting_field : Field
waiting_field = record { message = "Hello"; app = Environment.bob_comes }

submit-shown_twice_example :
    let once = submit env waiting_field in
    let twice = submit env once in
    let there = reached env waiting_field.app.page waiting_field.app.state.peers in
    let row = own_row state.nicknames "noon" "Hello" in
    (once.message ≡ "Hello")
    × (once.app.page.calls ≡ sends env (PeerMessage.text "Hello") there)
    × (twice.message ≡ "Hello")
    × (twice.app.page.calls
        ≡ sends env (PeerMessage.text "Hello") there ++ sends env (PeerMessage.text "Hello") there)
    × (texts (chat_html true state.nicknames twice.app.state.messages.list twice.message)
        ≡ "Chat" ∷ (row ++ row) ++ smiles)
submit-shown_twice_example =
    submit-shown_twice env waiting_field true state.nicknames 4 bob_heard refl refl refl refl

abbrev notice : Notification
notice = record { id = "n1"; type = NotifyType.info; message = "Hello" }

abbrev three_notices : NotificationState
three_notices = ("n1", notice) ∷ ("n2", notice) ∷ ("n3", notice) ∷ []

render_newest_example :
    (older newest : List String) × (keys three_notices ≡ older ++ newest)
    × (render 2 three_notices ≡ map (get three_notices) (reverse newest))
    × (length older ≡ 3 - 2)
    × (length newest ≤ 2)
render_newest_example = render_newest 2 three_notices (omega arith)
