-- ===== src/Client/Capture.antt =====
-- src/client/actions/MediaActions.ts: what the asynchronous actions on devices and streams make of
-- what the browser answers.
use model_lib.Prelude.{String, Bool, Option, none, some, List, [], ◌∷◌, ◌++◌, if◌then◌else◌}
use model_lib.Actions.{
  Action, MediaStream, MediaDevice, DeviceType, StreamType, AddStreamPayload, Error, Async, pending,
  resolved, rejected, me,
}
use model_lib.Store.{Env, App, dispatch}

-- MediaDeviceInfo
pub data DeviceKind : Type 0 where
  audio_input video_input audio_output : DeviceKind

pub record DeviceInfo : Type 0 where
  pub device_id : String
  pub kind : DeviceKind
  pub label : String

-- device.kind, for the two kinds that are kept
abbrev pub device_type : DeviceKind → Option DeviceType
device_type audio_input = some DeviceType.audioinput
device_type video_input = some DeviceType.videoinput
device_type audio_output = none

abbrev with_type : DeviceInfo → Option DeviceType → List MediaDevice
with_type device none = []
with_type device (some type) =
    record { id = device.device_id; name = device.label; type = type } ∷ []

-- enumerateDevices: the filter and the map on what the browser lists
unfoldable pub media_devices : List DeviceInfo → List MediaDevice
media_devices [] = []
media_devices (device ∷ rest) = with_type device (device_type device.kind) ++ media_devices rest

-- Which functions a browser has to ask the user for a camera.
pub record Navigator : Type 0 where
  pub media_devices : Bool
  pub plain : Bool
  pub webkit : Bool
  pub moz : Bool

pub data Asking : Type 0 where
  by_media_devices by_plain by_webkit by_moz : Asking

-- getUserMedia: what is called, if there is anything to call; else the promise is rejected.
unfoldable pub get_user_media : Navigator → Option Asking
get_user_media navigator =
    if navigator.media_devices
    then some by_media_devices
    else if navigator.plain
    then some by_plain
    else if navigator.webkit
    then some by_webkit
    else if navigator.moz
    then some by_moz
    else none

-- The payloads of getMediaStream and of getDesktopStream.
abbrev pub camera_payload : MediaStream → AddStreamPayload
camera_payload stream = record { user_id = me; type = some StreamType.camera; stream = stream }

abbrev pub desktop_payload : MediaStream → AddStreamPayload
desktop_payload stream = record { user_id = me; type = some StreamType.desktop; stream = stream }

-- How a promise ends.
pub data Outcome {ℓ} (A : Type ℓ) : Type ℓ where
  done : A → Outcome A
  failed : Error → Outcome A

-- The action that the middleware dispatches for it.
abbrev pub ended {ℓ} : {A B : Type ℓ} → (A → B) → Outcome A → Async B
ended f (done x) = resolved (f x)
ended f (failed e) = rejected e

-- The videos that `play` plays, each with whether it is paused.
unfoldable pub videos_to_play : {V : Type 0} → List (V × Bool) → List V
videos_to_play [] = []
videos_to_play ((video, paused) ∷ rest) =
    let others = videos_to_play rest in if paused then video ∷ others else others

module _ (env : Env) where
  -- dispatch(getMediaStream(…)) and dispatch(getDesktopStream())
  unfoldable pub ask_for_stream : App → App
  ask_for_stream app = dispatch env (Action.media_stream pending) app

  unfoldable pub media_stream_ended : Outcome MediaStream → App → App
  media_stream_ended outcome app =
      dispatch env (Action.media_stream (ended camera_payload outcome)) app

  unfoldable pub desktop_stream_ended : Outcome MediaStream → App → App
  desktop_stream_ended outcome app =
      dispatch env (Action.media_stream (ended desktop_payload outcome)) app

  -- dispatch(enumerateDevices()), and its end
  unfoldable pub enumerate_devices : App → App
  enumerate_devices app = dispatch env (Action.media_enumerate pending) app

  unfoldable pub devices_listed : Outcome (List DeviceInfo) → App → App
  devices_listed outcome app =
      dispatch env (Action.media_enumerate (ended media_devices outcome)) app

  -- dispatch(play()), and its end
  unfoldable pub play : App → App
  play app = dispatch env (Action.media_play pending) app

  unfoldable pub played : Outcome (Unit {0}) → App → App
  played outcome app = dispatch env (Action.media_play (ended (λ x. x) outcome)) app
