-- ===== src/Components/Input.antt =====
-- src/client/components/Input.tsx: the field for a message.
pub mod View
use Prim.Native.String
use model_lib.Prelude.{String, Bool, not, ◌&&◌, if◌then◌else◌, ◌=?◌}
use model_lib.Actions.{PeerMessage}
use model_lib.Store.{Env, App}
use model_lib.Client.PeerHandler.{returned, threw}
use model_lib.Client.Chat.{send_message}

-- The field's text, with the client that it sends to.
pub record Field : Type 0 where
  pub message : String
  pub app : App

-- handleChange
unfoldable pub handle_change : String → Field → Field
handle_change value f = record f { message = value }

-- handleSmileClick, for the text of the area and that of the element
unfoldable pub handle_smile_click : (area smile : String) → Field → Field
handle_smile_click area smile f = record f { message = String.◌++◌ area smile }

abbrev pub emptied : App → Field
emptied app = record { message = ""; app = app }

module _ (env : Env) where
  -- If sendMessage throws, the field is not emptied.
  unfoldable pub submit : Field → Field
  submit f =
      if f.message =? ""
      then emptied f.app
      else elim (send_message env (PeerMessage.text f.message) f.app) [
        | returned app ↦ emptied app
        | threw app ↦ record f { app = app }
      ]

  -- handleSubmit, and handleKeyPress by the key and whether shift is pressed
  unfoldable pub handle_submit : Field → Field
  handle_submit f = submit f

  unfoldable pub handle_key_press : (key : String) (shift : Bool) → Field → Field
  handle_key_press key shift f = if (key =? "Enter") && not shift then submit f else f
