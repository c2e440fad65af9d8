-- ===== src/Components/Application/Parts.antt =====
-- Which parts of the page have which handlers (src/client/components/App.tsx).
use model_lib.Prelude.{
  ℕ, String, ◌≡◌, refl, Bool, false, ◌&&◌, ◌||◌, Option, none, some, is_some, List, [], ◌∷◌, arith,
  ltb, Bool-cases, inl, inr,
}
use model_lib.Components.Html.{Handler, text, nodes}
use model_lib.Components.Html.Queries.{offers, offers_below, offers_below-map}
use model_lib.Components.Simple.{side, alert, alerts, dropdown, menu_item, DropdownState}
use model_lib.Components.Toolbar.{ToolbarState}
use model_lib.Components.Toolbar.View.{
  ToolbarProps, ToolbarButtonProps, toolbar_html, toolbar_button, is_in_call,
}
use model_lib.Components.Media.{
  ConstraintJson, media_html, media_form_html, options_html, options, option_html, autoplay_message,
}
use model_lib.Components.Chat.{chat_html, history_items, message_item, message_entry}
use model_lib.Components.Input.View.{input_html, smile_html}
use model_lib.Components.Notifications.View.{notifications_html, notification_html, present}
use model_lib.Components.Videos.{Placed, StreamProps}
use model_lib.Components.Videos.View.{videos_html, placed_html, stream_video}
use model_lib.Components.Videos.Video.{video_html}
use model_lib.Components.Application.{PageState, app_html, toolbar_props, map_state_to_props}
use model_lib.Components.Videos.{get_streams}
use model_lib.Actions.{me, Message, MinimizeTogglePayload, DeviceType, MediaDevice}
use model_lib.Components.Notifications.{render}
use model_lib.Reducers.Notifications.{NotificationState}
use model_lib.Reducers.Nicknames.{Nicknames, nickname_of}
use model_lib.Reducers.Media.{MediaState, DialState, visible, hung_up, dialling, in_call}
use model_lib.Reducers.Streams.{StreamWithUrl}
use model_lib.Store.{State, Env}

module _ (env : Env) (p : Handler → Bool) where
  button-offers :
      (props : ToolbarButtonProps)
      → offers p (toolbar_button env.number_text props) ≡ p props.on_click
  unfolding toolbar_button offers
  button-offers props = elim (Bool-cases (ltb 0 props.badge)) [
    | inl full ↦ rw full ground arith
    | inr zero ↦ rw zero ground arith
  ]

  pub toolbar_by-offers :
      (dial : DialState) (stream : Option StreamWithUrl) (props : ToolbarProps)
      (state : ToolbarState)
      → offers p
          (toolbar_html env.number_text (record props { dial_state = dial; stream = stream }) state)
        ≡ (p Handler.select_files
            || (is_in_call dial
                && (p Handler.toggle_chat
                    || p Handler.send_file
                    || p Handler.toggle_share_desktop
                    || p Handler.hang_up))
            || (is_some stream && (p Handler.click_mic || p Handler.click_cam))
            || p Handler.click_fullscreen)
  unfolding toolbar_html offers
  toolbar_by-offers hung_up none props state = grind (arith, button-offers)
  toolbar_by-offers hung_up (some s) props state = grind (arith, button-offers)
  toolbar_by-offers dialling none props state = grind (arith, button-offers)
  toolbar_by-offers dialling (some s) props state = grind (arith, button-offers)
  toolbar_by-offers in_call none props state = grind (arith, button-offers)
  toolbar_by-offers in_call (some s) props state = grind (arith, button-offers)

-- Handlers that the chat, the notifications and the videos have not.
pub record IsAside (p : Handler → Bool) : Type 0 where
  pub close_chat : p Handler.close_chat ≡ false
  pub submit_message : p Handler.submit_message ≡ false
  pub change_message : p Handler.change_message ≡ false
  pub press_key : p Handler.press_key ≡ false
  pub click_smile : (s : String) → p (Handler.click_smile s) ≡ false
  pub toggle_dropdown : p Handler.toggle_dropdown ≡ false
  pub toggle_minimize : (m : MinimizeTogglePayload) → p (Handler.toggle_minimize m) ≡ false
  pub toggle_cover : p Handler.toggle_cover ≡ false
  pub play : p Handler.play ≡ false
  pub change_video : p Handler.change_video ≡ false
  pub change_audio : p Handler.change_audio ≡ false

module _ (p : Handler → Bool) (aside : IsAside p) where
  notifications-offers :
      (max : ℕ) (notifications : NotificationState)
      → offers p (notifications_html max notifications) ≡ false
  unfolding notifications_html notification_html offers
  notifications-offers max notifications =
      offers_below-map p notification_html (present (render max notifications)) (λ n. refl)

  item-offers :
      (nicknames : Nicknames) (message : Message)
      → offers p (message_item nicknames message) ≡ false
  unfolding message_item message_entry offers
  item-offers nicknames message = ground arith

  history-offers :
      (nicknames : Nicknames) (messages : List Message)
      → offers_below p (nodes (history_items nicknames messages)) ≡ false
  unfolding history_items offers
  history-offers nicknames [] = refl
  history-offers nicknames (m ∷ ms) =
      offers_below-map p (message_item nicknames) (m ∷ ms) (item-offers nicknames)

  input-offers : (message : String) → offers p (input_html message) ≡ false
  unfolding input_html smile_html offers
  input-offers message =
      grind (arith, aside.submit_message, aside.change_message, aside.press_key, aside.click_smile)

  chat-offers :
      (visible : Bool) (nicknames : Nicknames) (messages : List Message) (message : String)
      → offers p (chat_html visible nicknames messages message) ≡ false
  unfolding chat_html offers
  chat-offers visible nicknames messages message =
      grind (arith, aside.close_chat, history-offers nicknames messages, input-offers message)

  video-offers :
      (menu : DropdownState) (nickname : String) (props : StreamProps)
      → offers p (video_html menu nickname props) ≡ false
  unfolding video_html dropdown menu_item offers
  video-offers menu nickname props =
      grind (arith, aside.play, aside.toggle_dropdown, aside.toggle_minimize, aside.toggle_cover)

  placed-offers :
      (menus : String → DropdownState) (nicknames : Nicknames) (placed : Placed)
      → offers_below p (nodes (placed_html menus nicknames placed)) ≡ false
  unfolding placed_html stream_video offers
  placed-offers menus nicknames placed = grind (
    arith,
    offers_below-map p (stream_video menus nicknames) placed.minimized
        (λ props. video-offers _ _ props),
    offers_below-map p (stream_video menus nicknames) placed.maximized
        (λ props. video-offers _ _ props),
  )

  option-offers : (o : String × List String) → offers p (option_html o) ≡ false
  unfolding option_html offers
  option-offers o = offers_below-map p text o.1 (λ s. refl)

  options-offers :
      (json : ConstraintJson) (type : DeviceType) (default' : String) (devices : List MediaDevice)
      → offers_below p (nodes (options_html json type default' devices)) ≡ false
  unfolding options_html
  options-offers json type default' devices =
      offers_below-map p option_html (options json type default' devices) option-offers

  form-offers :
      (json : ConstraintJson) (nickname : Option String) (media : MediaState)
      → offers p (media_form_html json nickname media) ≡ p Handler.submit_form
  unfolding media_form_html offers
  form-offers json none media =
      grind (arith, aside.change_video, aside.change_audio, options-offers)
  form-offers json (some n) media =
      grind (arith, aside.change_video, aside.change_audio, options-offers)

  media-offers :
      (json : ConstraintJson) (nickname : Option String) (media : MediaState)
      → offers p (media_html json nickname media) ≡ (visible media && p Handler.submit_form)
  unfolding media_html alert alerts autoplay_message offers
  media-offers json nickname media = grind (arith, aside.play, form-offers json nickname media)

  pub app-offers :
      (env : Env) (json : ConstraintJson) (state : State) (page : PageState)
      → offers p (app_html env json state page) ≡ (
          offers p (
            toolbar_html env.number_text
              (toolbar_props env.lodash (map_state_to_props state) page)
              page.toolbar)
          || (visible state.media && p Handler.submit_form))
  unfolding app_html side videos_html offers
  app-offers env json state page = grind (
    arith,
    notifications-offers 20 state.notifications,
    media-offers json (nickname_of state.nicknames me) state.media,
    chat-offers page.chat_visible state.nicknames state.messages.list page.message,
    placed-offers page.menus state.nicknames
        (get_streams env.lodash state.window_states state.nicknames state.streams),
  )
