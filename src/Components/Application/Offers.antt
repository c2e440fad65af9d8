-- ===== src/Components/Application/Offers.antt =====
-- What the page offers in each state of the dial (src/client/components/App.tsx).
use model_lib.Prelude.{◌≡◌, refl, ap, ◌∙◌, Bool, true, false, ◌&&◌, ◌||◌, arith}
use model_lib.Components.Html.{Handler}
use model_lib.Components.Html.Queries.{offers}
use model_lib.Components.Toolbar.{ToolbarState}
use model_lib.Components.Toolbar.View.{ToolbarProps, toolbar_html, is_in_call}
use model_lib.Components.Media.{ConstraintJson}
use model_lib.Components.Application.Parts.{IsAside, toolbar_by-offers, app-offers}
use model_lib.Components.Application.{PageState, app_html, toolbar_props, map_state_to_props}
use model_lib.Reducers.Media.{visible, is_hung_up}
use model_lib.Store.{State, Env}

-- The toolbar's buttons that are there in a call only; `chat` is the one that shows and hides the chat.
pub data Tool : Type 0 where
  chat send_file share_desktop hang_up : Tool

abbrev pub is_tool : Tool → Handler → Bool
is_tool chat Handler.toggle_chat = true
is_tool send_file Handler.send_file = true
is_tool share_desktop Handler.toggle_share_desktop = true
is_tool hang_up Handler.hang_up = true
is_tool _ _ = false

abbrev pub is_submit : Handler → Bool
is_submit Handler.submit_form = true
is_submit _ = false

tool-IsAside : (tool : Tool) → IsAside (is_tool tool)
tool-IsAside chat = record {
  close_chat = refl;
  submit_message = refl;
  change_message = refl;
  press_key = refl;
  click_smile = λ s. refl;
  toggle_dropdown = refl;
  toggle_minimize = λ m. refl;
  toggle_cover = refl;
  play = refl;
  change_video = refl;
  change_audio = refl;
}
tool-IsAside send_file = record {
  close_chat = refl;
  submit_message = refl;
  change_message = refl;
  press_key = refl;
  click_smile = λ s. refl;
  toggle_dropdown = refl;
  toggle_minimize = λ m. refl;
  toggle_cover = refl;
  play = refl;
  change_video = refl;
  change_audio = refl;
}
tool-IsAside share_desktop = record {
  close_chat = refl;
  submit_message = refl;
  change_message = refl;
  press_key = refl;
  click_smile = λ s. refl;
  toggle_dropdown = refl;
  toggle_minimize = λ m. refl;
  toggle_cover = refl;
  play = refl;
  change_video = refl;
  change_audio = refl;
}
tool-IsAside hang_up = record {
  close_chat = refl;
  submit_message = refl;
  change_message = refl;
  press_key = refl;
  click_smile = λ s. refl;
  toggle_dropdown = refl;
  toggle_minimize = λ m. refl;
  toggle_cover = refl;
  play = refl;
  change_video = refl;
  change_audio = refl;
}

submit-IsAside : IsAside is_submit
submit-IsAside = record {
  close_chat = refl;
  submit_message = refl;
  change_message = refl;
  press_key = refl;
  click_smile = λ s. refl;
  toggle_dropdown = refl;
  toggle_minimize = λ m. refl;
  toggle_cover = refl;
  play = refl;
  change_video = refl;
  change_audio = refl;
}

not_submit : (tool : Tool) → is_tool tool Handler.submit_form ≡ false
not_submit chat = refl
not_submit send_file = refl
not_submit share_desktop = refl
not_submit hang_up = refl

toolbar-tool :
    (env : Env) (tool : Tool) (props : ToolbarProps) (state : ToolbarState)
    → offers (is_tool tool) (toolbar_html env.number_text props state) ≡ is_in_call props.dial_state
toolbar-tool env chat props state =
    toolbar_by-offers env (is_tool chat) props.dial_state props.stream props state ∙ ground arith
toolbar-tool env send_file props state =
    toolbar_by-offers env (is_tool send_file) props.dial_state props.stream props state
    ∙ ground arith
toolbar-tool env share_desktop props state =
    toolbar_by-offers env (is_tool share_desktop) props.dial_state props.stream props state
    ∙ ground arith
toolbar-tool env hang_up props state =
    toolbar_by-offers env (is_tool hang_up) props.dial_state props.stream props state ∙ ground arith

-- The page has each of the buttons that show and hide the chat, send a file, share the desktop
-- and hang up exactly in a call, and the form to join exactly while hung up; so never both, and
-- neither while dialling. Whether the chat itself is shown does not matter.
pub app_html-offers :
    (env : Env) (json : ConstraintJson) (state : State) (page : PageState)
    → ((tool : Tool)
        → offers (is_tool tool) (app_html env json state page) ≡ is_in_call state.media.dial_state)
      × (offers is_submit (app_html env json state page) ≡ is_hung_up state.media.dial_state)
app_html-offers env json state page =
    let props = toolbar_props env.lodash (map_state_to_props state) page in
    (
      (λ tool.
          app-offers (is_tool tool) (tool-IsAside tool) env json state page
          ∙ grind (arith, toolbar-tool env tool props page.toolbar, not_submit tool)),
      app-offers is_submit submit-IsAside env json state page
          ∙ ap (λ b. b || (visible state.media && true))
              (toolbar_by-offers env is_submit props.dial_state props.stream props page.toolbar)
          ∙ ground arith,
    )
