-- ===== src/Reducers/Messages/Counting.antt =====
-- The unread count follows the list of messages, and the list only grows
-- (src/client/reducers/messages.ts).
use model_lib.Prelude.{
  ℕ, ◌+◌, String, ◌≡◌, refl, sym, ap, ◌∙◌, not, List, [], ◌∷◌, ◌++◌, arith, length, filter,
}
use mathlib.Core.List.{append_assoc, append-nil}
use model_lib.Actions.{Action, Message}
use model_lib.Reducers.Messages.{MessagesState, messages, convert_notification_to_message}

-- The messages of a list that count as unread: those that are not the system's.
abbrev pub counted : List Message → ℕ
counted list = length (filter (λ m. not m.system) list)

pub counted-append : (xs ys : List Message) → counted (xs ++ ys) ≡ counted xs + counted ys
counted-append [] ys = omega arith
counted-append (x ∷ xs) ys = ground (arith, counted-append xs ys)

-- The state after a history of actions, each with the clock's reading.
abbrev pub run_messages : MessagesState → List (Action × String) → MessagesState
run_messages state [] = state
run_messages state (e ∷ rest) = run_messages (messages state e.0 e.1) rest

-- What a history adds to the list.
pub record Grows (state state' : MessagesState) : Type 0 where
  pub added : List Message
  pub list : state'.list ≡ state.list ++ added
  pub count : state'.count ≡ state.count + counted added

messages-Grows :
    (state : MessagesState) (a : Action) (now : String) → Grows state (messages state a now)
unfolding messages convert_notification_to_message
messages-Grows state (Action.notify payload) now = record {
  added = convert_notification_to_message payload now ∷ [];
  list = refl;
  count = omega arith;
}
messages-Grows state (Action.message_add payload) now = record {
  added = payload ∷ [];
  list = refl;
  count = ground arith;
}
messages-Grows state _ now = record {
  added = [];
  list = sym (append-nil state.list);
  count = omega arith;
}

-- Under any history of actions messages are only added at the end of the chat's list, and the
-- count goes up by the number of those added that are not the system's, so notifications never
-- count.
pub run_messages-Grows :
    (state : MessagesState) (history : List (Action × String))
    → Grows state (run_messages state history)
run_messages-Grows state [] = record {
  added = [];
  list = sym (append-nil state.list);
  count = omega arith;
}
run_messages-Grows state (e ∷ rest) =
    let first = messages-Grows state e.0 e.1 in
    let later = run_messages-Grows (messages state e.0 e.1) rest in
    record {
      added = first.added ++ later.added;
      list =
          later.list
          ∙ ap (λ l. l ++ later.added) first.list
          ∙ append_assoc state.list first.added later.added;
      count = omega (arith, first.count, later.count, counted-append first.added later.added);
    }
