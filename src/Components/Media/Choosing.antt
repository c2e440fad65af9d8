-- ===== src/Components/Media/Choosing.antt =====
-- The devices that the form offers, and the choice of one (Options and the two handlers of a change in
-- src/client/components/Media.tsx, enumerateDevices in src/client/actions/MediaActions.ts).
use model_lib.Prelude.{
  String, ◌≡◌, refl, sym, ap, ◌∙◌, Bool, true, false, some, List, [], ◌∷◌, map, filter, All,
  if◌then◌else◌, ◌=?◌, Bool-cases, inl, inr,
}
use model_lib.Actions.{
  Action, MediaDevice, DeviceType, audioinput, videoinput, VideoConstraint, AudioConstraint,
  FacingMode, resolved,
}
use model_lib.Reducers.Media.{MediaState, media, handle_enumerate}
use model_lib.Store.{Env, App}
use model_lib.Store.Dispatch.{dispatch-media}
use model_lib.Client.Capture.{
  DeviceKind, audio_input, video_input, audio_output, DeviceInfo, media_devices, done,
  devices_listed,
}
use model_lib.Components.Media.{
  ConstraintJson, options, same_type, type_text, label_of, device_name, handle_video_change,
  handle_audio_change,
}

module _ (json : ConstraintJson) (env : Env) where
  video_chosen :
      (c : VideoConstraint) (value : String) (app : App)
      → json.video_text c ≡ value
      → json.video_text (handle_video_change json env value app).state.media.video ≡ value
  unfolding handle_video_change media
  video_chosen c value app e =
      let parsed : json.parse_video value ≡ some c =
        ap json.parse_video (sym e) ∙ json.parse_video-video_text c in
      rw (parsed, handle_video_change)
        (ap (λ (m : MediaState). json.video_text m.video)
            (dispatch-media env (Action.media_video_constraint_set c) app)
          ∙ e)

  audio_chosen :
      (c : AudioConstraint) (value : String) (app : App)
      → json.audio_text c ≡ value
      → json.audio_text (handle_audio_change json env value app).state.media.audio ≡ value
  unfolding handle_audio_change media
  audio_chosen c value app e =
      let parsed : json.parse_audio value ≡ some c =
        ap json.parse_audio (sym e) ∙ json.parse_audio-audio_text c in
      rw (parsed, handle_audio_change)
        (ap (λ (m : MediaState). json.audio_text m.audio)
            (dispatch-media env (Action.media_audio_constraint_set c) app)
          ∙ e)

  All-devices :
      (P : String × List String → Type 0) (type : DeviceType)
      → ((id : String) (name : List String) → P (json.device_text id, name))
      → (devices : List MediaDevice)
      → All P (
          map
            (λ d. (json.device_text d.id, device_name d ∷ []))
            (filter (λ d. same_type d.type type) devices))
  All-devices P type each [] = tt
  All-devices P type each (d ∷ ds) = elim (Bool-cases (same_type d.type type)) [
    | inl same ↦ rw same (each d.id (device_name d ∷ []), All-devices P type each ds)
    | inr other ↦ rw other (All-devices P type each ds)
  ]

  -- Whichever option of one of the form's two lists the user chooses, the list then shows it as
  -- the chosen one.
  pub choosing_selects :
      (app : App)
      → All
          (λ o. json.video_text (handle_video_change json env o.0 app).state.media.video ≡ o.0)
          (options json videoinput "{\"facingMode\":\"user\"}" app.state.media.devices)
        × All
            (λ o. json.audio_text (handle_audio_change json env o.0 app).state.media.audio ≡ o.0)
            (options json audioinput "true" app.state.media.devices)
  unfolding options
  choosing_selects app = (
    (
      video_chosen (VideoConstraint.enabled false) "false" app json.video_false,
      (
        video_chosen (VideoConstraint.facing FacingMode.user) "{\"facingMode\":\"user\"}" app
            json.video_user,
        All-devices _ videoinput
            (λ id name. video_chosen (VideoConstraint.device id) _ app (json.video_device id))
            app.state.media.devices,
      ),
    ),
    (
      audio_chosen (AudioConstraint.enabled false) "false" app json.audio_false,
      (
        audio_chosen (AudioConstraint.enabled true) "true" app json.audio_true,
        All-devices _ audioinput
            (λ id name. audio_chosen (AudioConstraint.device id) _ app (json.audio_device id))
            app.state.media.devices,
      ),
    ),
  )

-- The devices of a type among those that the browser lists.
abbrev pub is_of : DeviceType → DeviceKind → Bool
is_of audioinput audio_input = true
is_of videoinput video_input = true
is_of _ _ = false

-- How one of them is offered.
abbrev pub device_option : ConstraintJson → DeviceType → DeviceInfo → String × List String
device_option json type device = (
  json.device_text device.device_id,
  (if device.label =? "" then type_text type else device.label) ∷ [],
)

module _ (json : ConstraintJson) where
  -- The options of these devices, by what the form makes of the state and by what the browser lists.
  abbrev by_state : DeviceType → List MediaDevice → List (String × List String)
  by_state type devices =
      map (λ d. (json.device_text d.id, device_name d ∷ []))
        (filter (λ d. same_type d.type type) devices)

  abbrev by_browser : DeviceType → List DeviceInfo → List (String × List String)
  by_browser type infos = map (device_option json type) (filter (λ i. is_of type i.kind) infos)

  offered_one :
      (type : DeviceType) (kind : DeviceKind) (id label : String) (infos : List DeviceInfo)
      → by_state type (media_devices infos) ≡ by_browser type infos
      → let i : DeviceInfo = record { device_id = id; kind = kind; label = label } in
        by_state type (media_devices (i ∷ infos)) ≡ by_browser type (i ∷ infos)
  unfolding media_devices
  offered_one audioinput audio_input id label infos h =
      ap (λ l. (json.device_text id, (if label =? "" then "audioinput" else label) ∷ []) ∷ l) h
  offered_one audioinput video_input id label infos h = h
  offered_one audioinput audio_output id label infos h = h
  offered_one videoinput audio_input id label infos h = h
  offered_one videoinput video_input id label infos h =
      ap (λ l. (json.device_text id, (if label =? "" then "videoinput" else label) ∷ []) ∷ l) h
  offered_one videoinput audio_output id label infos h = h

  offered :
      (type : DeviceType) (infos : List DeviceInfo)
      → by_state type (media_devices infos) ≡ by_browser type infos
  unfolding media_devices
  offered type [] = refl
  offered type (i ∷ is) = offered_one type i.kind i.device_id i.label is (offered type is)

  -- Once the browser has listed the devices, the form offers none of a type, the default one,
  -- and each device of the type that the browser has listed, in its order, under its label, or
  -- its type where it has none.
  pub devices_listed-options :
      (env : Env) (type : DeviceType) (default' : String) (infos : List DeviceInfo) (app : App)
      → options json type default' (devices_listed env (done infos) app).state.media.devices
        ≡ ("false", "No " ∷ label_of type ∷ [])
          ∷ (default', "Default " ∷ label_of type ∷ [])
          ∷ map (device_option json type) (filter (λ i. is_of type i.kind) infos)
  unfolding options devices_listed media handle_enumerate
  devices_listed-options env type default' infos app =
      ap (λ (m : MediaState). options json type default' m.devices)
        (dispatch-media env (Action.media_enumerate (resolved (media_devices infos))) app)
      ∙ ap
          (λ l.
            ("false", "No " ∷ label_of type ∷ []) ∷ (default', "Default " ∷ label_of type ∷ []) ∷ l)
          (offered type infos)
