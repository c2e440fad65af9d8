-- ===== src/Components/Application.antt =====
-- src/client/components/App.tsx, with the props that src/client/containers/App.tsx takes from the
-- state: the whole page, and what its handlers do.
pub mod Parts
pub mod Offers
pub mod HangingUp
use model_lib.Prelude.{
  List, ℕ, String, Bool, true, false, Option, none, some, [], ◌∷◌, if◌then◌else◌, for_each,
}
use model_lib.Prelude.Dict.{Dict, get}
use model_lib.Lodash.{Lodash}
use model_lib.Actions
use model_lib.Actions.{Message, Action, camera, desktop, me}
use model_lib.Reducers.Nicknames.{Nicknames, nickname_of}
use model_lib.Reducers.Media.{DialState}
use model_lib.Reducers.Notifications.{NotificationState}
use model_lib.Reducers.Peers.{PeersState}
use model_lib.Reducers.WindowStates.{WindowStates}
use model_lib.Reducers.Streams.{StreamWithUrl, UserStreams, StreamsState}
use model_lib.Store.{State, Env, App, dispatch}
use model_lib.Client.Calls.{Session, hang_up_call}
use model_lib.Actions.{Error}
use model_lib.Client.Chat.{send_file}
use model_lib.Client.Capture.{ask_for_stream}
use model_lib.Components.Html.{Html, el, class_name}
use model_lib.Components.Simple.{DropdownState, left, top, side}
use model_lib.Components.Toolbar
use model_lib.Components.Toolbar.{ToolbarState}
use model_lib.Components.Toolbar.View.{ToolbarProps, toolbar_html}
use model_lib.Components.Notifications.View.{notifications_html}
use model_lib.Components.Media.{ConstraintJson, media_html}
use model_lib.Components.Chat.{chat_html}
use model_lib.Components.Videos.View.{videos_html}

-- The states of the page's components: App, Toolbar, Input, and the menu of each video.
pub record PageState : Type 0 where
  pub chat_visible : Bool
  pub toolbar : ToolbarState
  pub message : String
  pub menus : String → DropdownState

-- handleShowChat, handleHideChat
unfoldable pub handle_show_chat : PageState → PageState
handle_show_chat page = record page { chat_visible = true }

unfoldable pub handle_hide_chat : PageState → PageState
handle_hide_chat page = record page { chat_visible = false }

-- App.handleToggleChat
unfoldable pub toggle_chat_visible : PageState → PageState
unfolding handle_show_chat handle_hide_chat
toggle_chat_visible page =
    if page.chat_visible then handle_hide_chat page else handle_show_chat page

-- Toolbar.handleToggleChat, with the call of onToggleChat
unfoldable pub click_chat : (messages_count : ℕ) → PageState → PageState
unfolding toggle_chat_visible
click_chat messages_count page =
    toggle_chat_visible
      (record page { toolbar = Toolbar.handle_toggle_chat messages_count page.toolbar })

-- A stream's type as a key.
abbrev pub type_key : StreamWithUrl → String
type_key s = elim s.type [ none ↦ "undefined" | some camera ↦ "camera" | some desktop ↦ "desktop" ]

abbrev by_type : Lodash → Option UserStreams → Dict StreamWithUrl
by_type lib none = []
by_type lib (some ls) = lib.key_by StreamWithUrl type_key ls.streams

unfoldable pub get_local_streams : Lodash → StreamsState → Dict StreamWithUrl
get_local_streams lib streams = by_type lib (get streams me)

module _ (env : Env) where
  unfoldable pub remove_local : String × StreamWithUrl → App → App
  remove_local e app =
      dispatch env (Action.stream_remove (record { user_id = me; stream = e.1.stream })) app

  -- onHangup; `thrown` is what the socket throws, if it does.
  unfoldable pub on_hangup : (call_id : String) → Option Error → Session → Session
  unfolding remove_local
  on_hangup call_id thrown s =
      let local_streams = get_local_streams env.lodash s.app.state.streams in
      hang_up_call env call_id thrown (record s {
        app = for_each remove_local (env.lodash.entries StreamWithUrl local_streams) s.app;
      })

  -- Toolbar.handleToggleShareDesktop, up to the end of getDesktopStream
  unfoldable pub handle_toggle_share_desktop : Option StreamWithUrl → App → App
  handle_toggle_share_desktop (some s) app =
      dispatch env (Action.stream_remove (record { user_id = me; stream = s.stream })) app
  handle_toggle_share_desktop none app = ask_for_stream env app

  -- Toolbar.handleSelectFiles, up to the reading of the files
  unfoldable pub handle_select_files : {F : Type 0} → (has_file_reader : Bool) → List F → App → App
  handle_select_files has_file_reader files = for_each (λ file. send_file env has_file_reader) files

-- containers/App.tsx, mapStateToProps
pub record AppProps : Type 0 where
  pub dial_state : DialState
  pub streams : StreamsState
  pub peers : PeersState
  pub notifications : NotificationState
  pub nicknames : Nicknames
  pub messages : List Message
  pub messages_count : ℕ
  pub window_states : WindowStates

abbrev pub map_state_to_props : State → AppProps
map_state_to_props state = record {
  dial_state = state.media.dial_state;
  streams = state.streams;
  peers = state.peers;
  notifications = state.notifications;
  nicknames = state.nicknames;
  messages = state.messages.list;
  messages_count = state.messages.count;
  window_states = state.window_states;
}

-- The props that App gives to Toolbar.
abbrev pub toolbar_props : Lodash → AppProps → PageState → ToolbarProps
toolbar_props lib props page =
    let local_streams = get_local_streams lib props.streams in
    record {
      dial_state = props.dial_state;
      messages_count = props.messages_count;
      stream = get local_streams "camera";
      desktop_stream = get local_streams "desktop";
      chat_visible = page.chat_visible;
    }

-- App.render
unfoldable pub app_html : Env → ConstraintJson → State → PageState → Html
app_html env json state page =
    let props = map_state_to_props state in
    el "div" (class_name "app" ∷ []) (
      side left [] "2" (some "flex-end")
        (toolbar_html env.number_text (toolbar_props env.lodash props page) page.toolbar ∷ [])
      ∷ side top (("chat-visible", page.chat_visible) ∷ []) "1" none (
          notifications_html 20 props.notifications
          ∷ media_html json (nickname_of state.nicknames me) state.media
          ∷ [])
      ∷ chat_html page.chat_visible props.nicknames props.messages page.message
      ∷ videos_html env.lodash page.menus props.window_states props.nicknames props.streams)
