-- ===== src/Reducers/Nicknames.antt =====
-- src/client/reducers/nicknames.ts and src/client/nickname.ts: the users in the call and the names
-- they are shown under. A value `none` is a key whose value is undefined.
pub mod Users
use model_lib.Prelude.{String, Option, none, some, [], ◌∷◌, if◌then◌else◌, for_each, ◌=?◌}
use model_lib.Prelude.Dict.{Dict, get, put, without}
use model_lib.Actions
use model_lib.Actions.{Action, me}
use model_lib.Lodash.{Lodash}

abbrev pub Nicknames : Type 0
Nicknames = Dict (Option String)

-- state[k]: undefined for a missing key too.
abbrev pub joined : Option (Option String) → Option String
joined none = none
joined (some value) = value

abbrev pub nickname_of : Nicknames → String → Option String
nickname_of state k = joined (get state k)

-- getLocalNickname, from localStorage.nickname and the nickname of the page
unfoldable pub get_local_nickname : Option String → String → String
get_local_nickname none nickname = nickname
get_local_nickname (some stored) nickname = if stored =? "" then nickname else stored

abbrev pub default_state : Option String → String → Nicknames
default_state stored nickname = (me, some (get_local_nickname stored nickname)) ∷ []

unfoldable pub remove_nickname : Nicknames → String → Nicknames
remove_nickname state user_id = if user_id =? me then state else without state user_id

-- The reducer's callback for NICKNAMES_SET; `own` is the id of the local user.
unfoldable pub set_nickname : String → String × String → Nicknames → Nicknames
set_nickname own e obj = if e.0 =? own then put obj me (some e.1) else put obj e.0 (some e.1)

unfoldable pub set_nicknames : String → Nicknames → Dict String → Nicknames
unfolding set_nickname
set_nicknames own state payload =
    for_each (set_nickname own) payload ((me, nickname_of state me) ∷ [])

module _ (lib : Lodash) (own : String) where
  -- the default export
  unfoldable pub nicknames : Nicknames → Action → Nicknames
  nicknames state (Action.peer_remove user_id) = lib.omit (Option String) state (user_id ∷ [])
  nicknames state Action.hang_up = (me, nickname_of state me) ∷ []
  nicknames state (Action.nickname_remove user_id) = remove_nickname state user_id
  nicknames state (Action.nicknames_set payload) = set_nicknames own state payload
  nicknames state _ = state

-- The name that is shown: `if (nickname)` fails for the empty text too.
named : Option String → String → String
named none user_id = if user_id =? me then "You" else user_id
named (some nickname) user_id =
    if nickname =? "" then (if user_id =? me then "You" else user_id) else nickname

unfoldable pub get_nickname : Nicknames → String → String
unfolding named
get_nickname nicknames user_id = named (nickname_of nicknames user_id) user_id
