-- ===== src/Client/Address.antt =====
-- src/client/window.ts and src/client/socket.ts: what the page's hidden fields hold, and the address of
-- the server's WebSocket.
use Prim.Native.String.{◌∷◌, ◌++◌}
use text.Mathlib.Text.{starts_with}
use model_lib.Prelude.{String, Option, if◌then◌else◌}
use model_lib.Prelude.Dict.{Dict, get}

-- The fields of the page that has been loaded, by their ids.
unfoldable pub value_of : Dict String → String → Option String
value_of fields id = get fields id

abbrev after_http : String → String
after_http (_ ∷ _ ∷ _ ∷ _ ∷ rest) = rest
after_http s = s

-- origin.replace(/^http/, 'ws')
unfoldable pub socket_origin : String → String
socket_origin origin = if starts_with origin "http" then "ws" ++ after_http origin else origin

unfoldable pub ws_url : (origin base_url call_id user_id : String) → String
unfolding socket_origin
ws_url origin base_url call_id user_id =
    socket_origin origin ++ (base_url ++ ("/ws/" ++ (call_id ++ ("/" ++ user_id))))
