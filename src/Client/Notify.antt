-- ===== src/Client/Notify.antt =====
-- src/client/actions/NotifyActions.ts: making a notification and dispatching it.
use Prim.Native.String
use Prim.Native.String.{[], ◌∷◌, count}
use mathlib.Core.List.{List, [], ◌∷◌}
use text.Mathlib.Text.{starts_with}
use model_lib.Prelude.{ℕ, zero, suc, ◌+◌, String, if◌then◌else◌}
use model_lib.Actions.{Action, NotifyType}
use model_lib.Reducers.Notifications.{make_notification}
use model_lib.Store.{Env, App, dispatch}

drop_chars : ℕ → String → String
drop_chars zero s = s
drop_chars (suc n) [] = []
drop_chars (suc n) (c ∷ s) = drop_chars n s

-- s.replace(pattern, arg), for an argument with no dollar sign
unfoldable pub replace_first : String → String → String → String
unfolding drop_chars
replace_first pattern arg [] = []
replace_first pattern arg (c ∷ s) =
    let rest = replace_first pattern arg s in
    if starts_with (c ∷ s) pattern
    then String.◌++◌ arg (drop_chars (count pattern) (c ∷ s))
    else c ∷ rest

module _ (env : Env) where
  place : ℕ → String
  place i = String.◌++◌ "{" (String.◌++◌ (env.number_text i) "}")

  fill_from : ℕ → String → List String → String
  fill_from i s [] = s
  fill_from i s (arg ∷ args) = fill_from (i + 1) (replace_first (place i) arg s) args

  -- format
  unfoldable pub format : String → List String → String
  unfolding fill_from place replace_first
  format s args = fill_from 0 s args

  -- dispatch(NotifyActions.info(…)), and so for the other types
  unfoldable pub notify : NotifyType → String → List String → App → App
  notify type text args app =
      let (notification, page) = make_notification env.lodash type (format text args) app.page in
      dispatch env (Action.notify notification) (record app { page = page })
