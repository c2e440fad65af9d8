-- ===== src/Client/Moves.antt =====
-- What the client's own code does to the client: it dispatches actions to the store, adds
-- notifications, and calls functions of the page, one after the other (src/client/actions).
pub mod Good
pub mod Handlers
pub mod Server
use model_lib.Prelude.{String, List, [], ◌∷◌, for_each, All, refl}
use model_lib.Lodash.{IsPlainKey}
use model_lib.Actions.{Action, NotifyType}
use model_lib.Page.{Page, Call, record_call}
use model_lib.Page.Turning.{IsOther, Turns, same_Turns}
use model_lib.Store.{Env, App, dispatch}
use model_lib.Client.Notify.{notify}
use model_lib.Client.PeerHandler.{on_page}

-- The actions: users who leave are others, and only the socket says that it is connected.
abbrev pub IsUsual : Action → Type 0
IsUsual (Action.notify n) = ⊥
IsUsual Action.socket_connected = ⊥
IsUsual Action.socket_disconnected = ⊥
IsUsual (Action.nickname_remove user_id) = IsPlainKey user_id
IsUsual (Action.peer_remove user_id) = IsOther user_id
IsUsual _ = Unit

module _ (env : Env) where
  pub data Moves : App → App → Type 1 where
    stays : (app : App) → Moves app app
    notes :
        (type : NotifyType) (text : String) (args : List String) (app after : App)
        → Moves (notify env type text args app) after
        → Moves app after
    acts :
        (action : Action) (app after : App)
        → IsUsual action
        → Moves (dispatch env action app) after
        → Moves app after
    turns :
        (f : Page → Page) (app after : App)
        → Turns app.page (f app.page)
        → Moves (on_page f app) after
        → Moves app after

  pub then_Moves : (a b c : App) → Moves a b → Moves b c → Moves a c
  then_Moves _ _ c (stays a) n = n
  then_Moves _ _ c (notes type text args a b m) n = notes type text args a c (then_Moves _ b c m n)
  then_Moves _ _ c (acts action a b u m) n = acts action a c u (then_Moves _ b c m n)
  then_Moves _ _ c (turns f a b t m) n = turns f a c t (then_Moves _ b c m n)

  -- What each kind of move keeps, all of them keep.
  pub Moves-keep {ℓ} :
      (I : App → Type ℓ)
      → ((type : NotifyType) (text : String) (args : List String) (app : App)
          → I app
          → I (notify env type text args app))
      → ((action : Action) (app : App) → IsUsual action → I app → I (dispatch env action app))
      → ((f : Page → Page) (app : App) → Turns app.page (f app.page) → I app → I (on_page f app))
      → (a b : App) → Moves a b
      → I a
      → I b
  Moves-keep I note act turn _ _ (stays a) i = i
  Moves-keep I note act turn _ _ (notes type text args a b m) i =
      Moves-keep I note act turn _ b m (note type text args a i)
  Moves-keep I note act turn _ _ (acts action a b u m) i =
      Moves-keep I note act turn _ b m (act action a u i)
  Moves-keep I note act turn _ _ (turns f a b t m) i =
      Moves-keep I note act turn _ b m (turn f a t i)

  pub note_Moves :
      (type : NotifyType) (text : String) (args : List String) (app : App)
      → Moves app (notify env type text args app)
  note_Moves type text args app = notes type text args app _ (stays _)

  pub act_Moves :
      (action : Action) (app : App) → IsUsual action → Moves app (dispatch env action app)
  act_Moves action app u = acts action app _ u (stays _)

  pub turn_Moves :
      (f : Page → Page) (app : App) → Turns app.page (f app.page) → Moves app (on_page f app)
  turn_Moves f app t = turns f app _ t (stays _)

  pub call_Moves : (call : Call) (app : App) → Moves app (on_page (record_call call) app)
  call_Moves call app = turn_Moves (record_call call) app (same_Turns app.page _ refl refl)

  -- A loop of moves, where the elements are as they have to be.
  pub for_each-Moves {ℓ κ} :
      {A : Type ℓ} (P : A → Type κ) (f : A → App → App)
      → ((x : A) (app : App) → P x → Moves app (f x app))
      → (xs : List A) (app : App) → All P xs
      → Moves app (for_each f xs app)
  for_each-Moves P f step [] app h = stays app
  for_each-Moves P f step (x ∷ xs) app h =
      then_Moves app (f x app) _ (step x app h.0) (for_each-Moves P f step xs (f x app) h.1)

  pub loop-Moves {ℓ} :
      {A : Type ℓ} (f : A → App → App)
      → ((x : A) (app : App) → Moves app (f x app))
      → (xs : List A) (app : App) → Moves app (for_each f xs app)
  loop-Moves f step [] app = stays app
  loop-Moves f step (x ∷ xs) app =
      then_Moves app (f x app) _ (step x app) (loop-Moves f step xs (f x app))
