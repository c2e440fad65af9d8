-- ===== src/Client/Middleware/Guards.antt =====
-- What is dispatched, and the tests on it (src/client/async/action.ts, src/client/async/middleware.ts).
use model_lib.Prelude.{
  String, Bool, true, false, ◌&&◌, Option, none, some, [], ◌∷◌, ◌++◌, if◌then◌else◌, ◌=?◌, ◌≡◌,
  refl, is_some,
}
use model_lib.Prelude.Dict.{Dict, get, put, get-put}

-- What a field holds, and what is dispatched, as far as the tests look: an object's fields are also
-- those that it inherits, a primitive is a number or a text. Functions do not come here: redux-thunk
-- takes them.
pub data FieldValue : Type 0 where
  text : String → FieldValue
  function other : FieldValue

pub data Value : Type 0 where
  falsy primitive : Value
  object : Dict FieldValue → Value

-- typeof x === 'string', typeof x === 'function'
abbrev is_text : Option FieldValue → Bool
is_text (some (text s)) = true
is_text _ = false

abbrev is_function : Option FieldValue → Bool
is_function (some function) = true
is_function _ = false

unfoldable pub is_promise : Value → Bool
is_promise falsy = false
is_promise primitive = false
is_promise (object o) = is_function (get o "then")

unfoldable pub is_pending_action : Value → Bool
unfolding is_promise
is_pending_action falsy = false
is_pending_action primitive = false
is_pending_action (object o) = is_promise (object o) && is_text (get o "type")

-- x === 'rejected'
abbrev is_rejected : Option FieldValue → Bool
is_rejected (some (text s)) = s =? "rejected"
is_rejected _ = false

-- `none` where `in` throws
unfoldable pub is_rejected_action : Value → Option Bool
is_rejected_action falsy = some false
is_rejected_action primitive = none
is_rejected_action (object o) = some (
    is_some (get o "type")
    && is_text (get o "type")
    && is_some (get o "status")
    && is_rejected (get o "status"))

-- makeAction, from the promise that `impl` gives
unfoldable pub make_action : String → Dict FieldValue → Value
make_action type promise = object (put (put promise "type" (text type)) "status" (text "pending"))

abbrev field {ℓ} : {A : Type ℓ} → String → Option A → Dict A
field key none = []
field key (some v) = (key, v) ∷ []

-- What the middleware gives to `next`: an action that is not a promise as it is.
unfoldable pub next_of : Value → Value
next_of falsy = falsy
next_of primitive = primitive
next_of (object o) =
    if is_pending_action (object o)
    then object (field "type" (get o "type") ++ ("status", text "pending") ∷ [])
    else object o

-- A promise that makeAction makes is taken for one, and its type with the pending status goes to
-- `next`.
make_action-next_of :
    (type : String) (promise : Dict FieldValue)
    → get promise "then" ≡ some function
    → (is_pending_action (make_action type promise) ≡ true)
      × (next_of (make_action type promise)
          ≡ object (("type", text type) ∷ ("status", text "pending") ∷ []))
unfolding next_of is_pending_action is_promise make_action
make_action-next_of type promise thenable = simp (get-put, thenable) (refl, refl)
