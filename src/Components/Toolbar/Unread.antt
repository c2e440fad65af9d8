-- ===== src/Components/Toolbar/Unread.antt =====
-- The count of unread messages on the chat button (src/client/components/Toolbar.tsx).
use model_lib.Prelude.{◌+◌, String, ◌≡◌, List, [], ◌∷◌, ◌++◌, arith}
use model_lib.Actions.{Action, Message}
use model_lib.Reducers.Messages.{MessagesState, messages}
use model_lib.Reducers.Messages.Counting.{counted, counted-append}
use model_lib.Components.Application.{
  PageState, click_chat, toggle_chat_visible, handle_hide_chat, handle_show_chat,
}
use model_lib.Components.Toolbar.{initial_toolbar, handle_toggle_chat, unread_count}

-- What the chat's slice and the page go through, with the clock's reading: a click on the toolbar's
-- button for the chat, and one on the chat's own button, which closes it.
pub data Happening : Type 0 where
  acted : Action → String → Happening
  toggled closed : Happening

pub record Counts : Type 0 where
  pub messages : MessagesState
  pub page : PageState

abbrev pub happen : Happening → Counts → Counts
happen (acted a now) c = record c { messages = messages c.messages a now }
happen toggled c = record c { page = click_chat c.messages.count c.page }
happen closed c = record c { page = handle_hide_chat c.page }

abbrev pub run_counts : Counts → List Happening → Counts
run_counts c [] = c
run_counts c (h ∷ rest) = run_counts (happen h c) rest

-- The messages since the last click on the toolbar's button for the chat.
abbrev pub since_toggle : List Message → List Happening → List Message
since_toggle ms [] = ms
since_toggle ms (acted (Action.message_add m) now ∷ rest) = since_toggle (ms ++ m ∷ []) rest
since_toggle ms (acted _ now ∷ rest) = since_toggle ms rest
since_toggle ms (toggled ∷ rest) = since_toggle [] rest
since_toggle ms (closed ∷ rest) = since_toggle ms rest

count-run :
    (ms : List Message) (c : Counts) (history : List Happening)
    → c.messages.count ≡ c.page.toolbar.read_messages + counted ms
    → (run_counts c history).messages.count
      ≡ (run_counts c history).page.toolbar.read_messages + counted (since_toggle ms history)
unfolding messages handle_toggle_chat click_chat toggle_chat_visible handle_hide_chat
    handle_show_chat
count-run ms c [] h = h
count-run ms c (toggled ∷ rest) h = count-run [] (happen toggled c) rest (ground arith)
count-run ms c (closed ∷ rest) h = count-run ms (happen closed c) rest h
count-run ms c (acted (Action.message_add m) now ∷ rest) h =
    count-run (ms ++ m ∷ []) (happen (acted (Action.message_add m) now) c) rest
      (ground (arith, counted-append ms (m ∷ [])))
count-run ms c (acted a now ∷ rest) h = count-run ms (happen (acted a now) c) rest h

abbrev pub first_counts : MessagesState → PageState → Counts
first_counts state page = record {
  messages = state;
  page = record page { toolbar = initial_toolbar state.count };
}

-- At any time after the toolbar was made, the number on the chat's button is that of the
-- messages from users that came since the last click on that button, or else since the toolbar
-- was made. Closing the chat with the chat's own button does not count as such a click: the
-- messages that came while it was open then count as unread.
pub unread_count-run_counts :
    (state : MessagesState) (page : PageState) (history : List Happening)
    → let now = run_counts (first_counts state page) history in
      unread_count now.messages.count now.page.toolbar ≡ counted (since_toggle [] history)
unread_count-run_counts state page history =
    omega (arith, count-run [] (first_counts state page) history (omega arith))
