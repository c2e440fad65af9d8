-- ===== src/Components/Html.antt =====
-- What the components' render methods return: elements with attributes and children, as React takes
-- them (src/client/components). A child that is `false`, `null` or undefined is left out, and a
-- fragment is the list of its children. The text that the package classnames makes of its arguments
-- is not modelled: the names are kept, each with whether it is asked for.
pub mod Queries
use model_lib.Prelude.{String, Bool, Option, none, some, List, [], ◌∷◌, if◌then◌else◌}
use model_lib.Actions.{MinimizeTogglePayload}

-- What the program does when a handler of an element is called.
pub data Handler : Type 0 where
  toggle_chat close_chat : Handler
  send_file select_files : Handler
  toggle_share_desktop : Handler
  click_mic click_cam click_fullscreen : Handler
  hang_up : Handler
  submit_form change_video change_audio : Handler
  play : Handler
  change_message submit_message press_key : Handler
  click_smile : String → Handler
  toggle_dropdown : Handler
  toggle_minimize : MinimizeTogglePayload → Handler
  toggle_cover : Handler

pub data Attribute : Type 0 where
  -- the arguments of classnames
  class : List (String × Bool) → Attribute
  has : (name value : String) → Attribute
  flag : (name : String) → Bool → Attribute
  -- an event with the handlers that are called for it, in order
  on : (event : String) → List Handler → Attribute

mutual
  pub data Html : Type 0 where
    text : String → Html
    element : (tag : String) → List Attribute → Forest → Html

  pub data Forest : Type 0 where
    end : Forest
    node : Html → Forest → Forest

abbrev pub nodes : List Html → Forest
nodes [] = end
nodes (h ∷ hs) = node h (nodes hs)

-- An element with these children.
abbrev pub el : String → List Attribute → List Html → Html
el tag attributes children = element tag attributes (nodes children)

-- className='name'
abbrev pub class_name : String → Attribute
class_name name = class ((name, Bool.true) ∷ [])

-- test && html
abbrev pub when : Bool → Html → List Html
when test html = if test then html ∷ [] else []

-- The truth of a text or of an absent one.
abbrev pub is_full : Option String → Bool
is_full none = Bool.false
is_full (some String.[]) = Bool.false
is_full (some (String.◌∷◌ c s)) = Bool.true
