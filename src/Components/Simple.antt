-- ===== src/Components/Simple.antt =====
-- src/client/components: Side.tsx, Alerts.tsx and Dropdown.tsx.
use model_lib.Prelude.{String, Bool, true, not, Option, none, some, List, [], ◌∷◌, ◌++◌, map}
use model_lib.Components.Html.{Handler, class, has, on, Html, text, el, class_name, toggle_dropdown}

-- Side.tsx: where a side stands, and its alignment. The other props that classnames is given, `align`
-- and `children` among them, add their names too.
pub data Position : Type 0 where
  left right top bottom : Position

abbrev pub position_name : Position → String
position_name left = "left"
position_name right = "right"
position_name top = "top"
position_name bottom = "bottom"

abbrev pub align_or_center : Option String → String
align_or_center none = "center"
align_or_center (some align) = align

abbrev pub align_names : Option String → List (String × Bool)
align_names none = []
align_names (some align) = ("align", true) ∷ []

-- `z_index` is the number's text.
unfoldable pub side :
    Position
    → (class_names : List (String × Bool)) → (z_index : String) → (align : Option String)
    → List Html
    → Html
side position class_names z_index align children =
    el "div"
      (class (
          ("side", true) ∷ class_names
          ++ (align_names align ++ (position_name position, true) ∷ ("children", true) ∷ []))
        ∷ has "alignItems" (align_or_center align)
        ∷ has "zIndex" z_index
        ∷ [])
      children

-- Alerts.tsx
unfoldable pub alert : List Html → Html
alert children = el "div" (class_name "alert" ∷ []) children

unfoldable pub alerts : List Html → Html
alerts children = el "div" (class_name "alerts" ∷ []) children

-- Dropdown.tsx: the state, and an item with the class and the handler that it is given.
pub record DropdownState : Type 0 where
  pub is_open : Bool

unfoldable pub handle_click : DropdownState → DropdownState
handle_click state = record { is_open = not state.is_open }

pub record Item : Type 0 where
  pub class : String
  pub handler : Handler
  pub label : String

-- React.cloneElement(child, …): a click closes or opens the list, and then does what it did.
unfoldable pub menu_item : Item → Html
menu_item item =
    el "li" (class_name item.class ∷ on "click" (toggle_dropdown ∷ item.handler ∷ []) ∷ [])
      (text item.label ∷ [])

unfoldable pub dropdown : DropdownState → String → List Item → Html
unfolding menu_item
dropdown state label items = el "div" (class_name "dropdown" ∷ []) (
    el "button" (on "click" (toggle_dropdown ∷ []) ∷ []) (text label ∷ [])
    ∷ el "ul" (class (("dropdown-list", true) ∷ ("dropdown-list-open", state.is_open) ∷ []) ∷ [])
        (map menu_item items)
    ∷ [])
