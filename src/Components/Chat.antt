-- ===== src/Components/Chat.antt =====
-- src/client/components/Chat.tsx: the messages and the field below them. That the history is scrolled
-- to its end and the field gets the focus is not modelled.
pub mod Shown
pub mod Resubmitting
use model_lib.Prelude.{
  String, Bool, true, Option, none, some, List, [], ◌∷◌, ◌++◌, map, if◌then◌else◌, ◌=?◌,
}
use model_lib.Actions.{Message, me}
use model_lib.Reducers.Nicknames.{Nicknames, get_nickname}
use model_lib.Components.Html.{
  class, has, on, Html, text, el, class_name, when, is_full, close_chat,
}
use model_lib.Components.Input.View.{input_html}

abbrev pub src_of : Option String → String
src_of none = ""
src_of (some src) = src

-- MessageEntry
unfoldable pub message_entry : Message → Html
message_entry message = el "p" (class_name "message-text" ∷ []) (
    when (is_full message.image)
      (el "img" (has "src" (src_of message.image) ∷ has "width" "100%" ∷ []) [])
    ++ text message.message ∷ [])

-- The picture beside a message.
abbrev pub picture : Message → Html
picture message =
    if is_full message.image
    then el "img" (class_name "chat-item-img" ∷ has "src" (src_of message.image) ∷ []) []
    else el "span" (class_name "chat-item-img icon icon-face" ∷ []) []

abbrev pub bubble : Nicknames → Message → Html
bubble nicknames message = el "div" (class_name "message" ∷ []) (
    el "span" (class_name "message-user-name" ∷ [])
      (text (get_nickname nicknames message.user_id) ∷ [])
    ∷ el "span" (class_name "icon icon-schedule" ∷ []) []
    ∷ el "time" (class_name "message-time" ∷ []) (text message.timestamp ∷ [])
    ∷ message_entry message
    ∷ [])

-- The function that render maps over the messages.
unfoldable pub message_item : Nicknames → Message → Html
message_item nicknames message = el "div" [] (
    (if message.user_id =? me
      then el "div" (class_name "chat-item chat-item-me" ∷ [])
          (bubble nicknames message ∷ picture message ∷ [])
      else el "div" (class_name "chat-item chat-item-other" ∷ [])
          (picture message ∷ bubble nicknames message ∷ []))
    ∷ [])

abbrev pub no_messages : Html
no_messages = el "div" (class_name "chat-empty" ∷ []) (
    el "span" (class_name "chat-empty-icon icon icon-question_answer" ∷ []) []
    ∷ el "div" (class_name "chat-empty-message" ∷ []) (text "No Notifications" ∷ [])
    ∷ [])

unfoldable pub history_items : Nicknames → List Message → List Html
history_items nicknames [] = no_messages ∷ []
history_items nicknames (message ∷ rest) = map (message_item nicknames) (message ∷ rest)

-- render, with the text of the field
unfoldable pub chat_html : (visible : Bool) → Nicknames → List Message → String → Html
chat_html visible nicknames messages message =
    el "div" (class (("chat-container", true) ∷ ("show", visible) ∷ []) ∷ []) (
      el "div" (class_name "chat-header" ∷ []) (
        el "div" (class_name "chat-close" ∷ on "click" (close_chat ∷ []) ∷ []) (
          el "div" (class_name "button button-icon" ∷ [])
            (el "span" (class_name "icon icon-arrow_forward" ∷ []) [] ∷ [])
          ∷ [])
        ∷ el "div" (class_name "chat-title" ∷ []) (text "Chat" ∷ [])
        ∷ [])
      ∷ el "div" (class_name "chat-history" ∷ []) (history_items nicknames messages)
      ∷ input_html message
      ∷ [])
