-- ===== src/Tests/Components.antt =====
-- Instances of the theorems on the React components.
use model_lib.Prelude.{◌≡◌, refl, true, false, none, some, List, [], ◌∷◌, map, filter, not}
use model_lib.Actions.{Action, Notification, NotifyType}
use model_lib.Reducers.Messages
use model_lib.Reducers.Nicknames.{Nicknames}
use model_lib.Components.Application.{PageState}
use model_lib.Components.Videos.{get_streams}
use model_lib.Components.Videos.Placing.{seen, wanted, is_minimized, get_streams_lem}
use model_lib.Reducers.WindowStates.{WindowStates, minimized, get_stream_key}
use model_lib.Components.Toolbar.{Muted, initial_toolbar, unread_count}
use model_lib.Components.Toolbar.Unread.{
  Happening, Counts, acted, toggled, closed, run_counts, first_counts, since_toggle,
  unread_count-run_counts,
}
use model_lib.Components.Toolbar.Muting.{clicks, shows, shows-clicks}
use model_lib.Reducers.Messages.Counting.{counted}
use model_lib.Tests.Data.{lodash, two_streams}

abbrev everyone : Nicknames
everyone = ("_me_", some "Carol") ∷ ("alice", none) ∷ []

abbrev windows : WindowStates
windows = (get_stream_key "_me_" none, minimized) ∷ []

get_streams_lem_example :
    (map seen (get_streams lodash windows everyone two_streams).minimized
      ≡ filter (is_minimized windows) (wanted two_streams everyone))
    × (map seen (get_streams lodash windows everyone two_streams).maximized
        ≡ filter (λ v. not (is_minimized windows v)) (wanted two_streams everyone))
get_streams_lem_example = get_streams_lem lodash windows everyone two_streams

abbrev notice : Notification
notice = record { id = "n1"; type = NotifyType.info; message = "Hello" }

abbrev page_state : PageState
page_state = record {
  chat_visible = false;
  toolbar = initial_toolbar 0;
  message = "";
  menus = λ key. record { is_open = false };
}

abbrev history : List Happening
history = toggled ∷ acted (Action.notify notice) "noon" ∷ closed ∷ []

abbrev after_history : Counts
after_history = run_counts (first_counts Messages.default_state page_state) history

unread_count-run_counts_example :
    unread_count after_history.messages.count after_history.page.toolbar
    ≡ counted (since_toggle [] history)
unread_count-run_counts_example = unread_count-run_counts Messages.default_state page_state history

-- The microphone was muted, and the stream is a new one, whose track 10 is live.
abbrev muted_before : Muted
muted_before = record {
  state = record (initial_toolbar 0) { mic_muted = true };
  enabled = λ t. true;
}

shows-clicks_example : shows (clicks 3 (10 ∷ []) muted_before) 10 ≡ shows muted_before 10
shows-clicks_example = shows-clicks 3 (10 ∷ []) muted_before 10 (refl, tt) refl
