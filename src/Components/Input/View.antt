-- ===== src/Components/Input/View.antt =====
-- src/client/components/Input.tsx: the form of the field for a message.
use model_lib.Prelude.{String, List, [], ◌∷◌, map}
use model_lib.Components.Html.{
  has, on, Html, text, el, class_name, submit_message, change_message, press_key, click_smile,
}

abbrev pub smiles : List String
smiles = "😑" ∷ "😕" ∷ "😊" ∷ "😎" ∷ "💪" ∷ []

unfoldable pub smile_html : String → Html
smile_html smile =
    el "div" (class_name "chat-controls-buttons-smile" ∷ on "click" (click_smile smile ∷ []) ∷ [])
      (text smile ∷ [])

abbrev pub smiles_html : Html
smiles_html = el "div" (class_name "emoji" ∷ []) (
    el "div" (class_name "chat-controls-buttons-smiles" ∷ []) (
      el "span" (class_name "icon icon-sentiment_satisfied" ∷ []) []
      ∷ el "div" (class_name "chat-controls-buttons-smiles-menu" ∷ []) (map smile_html smiles)
      ∷ [])
    ∷ [])

-- render, for the field's text
unfoldable pub input_html : String → Html
input_html message =
    el "form" (class_name "chat-controls" ∷ on "submit" (submit_message ∷ []) ∷ []) (
      el "textarea"
        (class_name "chat-controls-textarea"
          ∷ on "change" (change_message ∷ [])
          ∷ on "keypress" (press_key ∷ [])
          ∷ has "placeholder" "Type a message"
          ∷ has "value" message
          ∷ [])
        []
      ∷ el "div" (class_name "chat-controls-buttons" ∷ []) (
          el "input"
            (has "type" "submit"
              ∷ has "value" "Send"
              ∷ class_name "chat-controls-buttons-send"
              ∷ [])
            []
          ∷ el "div" (class_name "chat-controls-buttons-wrapper" ∷ []) (smiles_html ∷ [])
          ∷ [])
      ∷ [])
