-- ===== src/Client/Middleware.antt =====
-- src/client/async/middleware.ts, src/client/async/reducer.ts and src/client/middlewares.ts: an action that is a promise, for any
-- store whose reducers may throw.
pub mod Ending
pub mod Kinds
pub mod Guards
use model_lib.Prelude.{Bool, if◌then◌else◌, Option, none, some, List, [], ◌∷◌, ◌++◌}
use model_lib.Actions.{Async, pending, resolved, rejected, Error}
use model_lib.Client.Capture.{Outcome, done, failed}

-- middlewares.ts: redux-thunk's, the one of this file, and redux-logger's
pub data StoreMiddleware : Type 0 where
  thunk async_middleware logger : StoreMiddleware

abbrev pub middlewares : List StoreMiddleware
middlewares = thunk ∷ async_middleware ∷ []

unfoldable pub create : (log : Bool) → List StoreMiddleware
create log = if log then middlewares ++ logger ∷ [] else middlewares

-- async/reducer.ts, reduce
unfoldable pub reduce {ℓ κ} :
    {S : Type ℓ} {P : Type κ}
    → S
    → Async P
    → (handle_pending : S → S) (handle_resolved : S → P → S) (handle_rejected : S → Error → S) → S
reduce state pending handle_pending handle_resolved handle_rejected = handle_pending state
reduce state (resolved payload) handle_pending handle_resolved handle_rejected =
    handle_resolved state payload
reduce state (rejected error) handle_pending handle_resolved handle_rejected =
    handle_rejected state error

-- How a dispatch ends: with the new state, or with what a reducer throws, which leaves the state.
pub data Dispatched {ℓ} (S : Type ℓ) : Type ℓ where
  reduced : S → Dispatched S
  threw : Error → Dispatched S

-- The store with the statuses that it has been given, in their order.
pub record Told {ℓ κ} (S : Type ℓ) (P : Type κ) : Type (ℓ ⊔ κ) where
  pub state : S
  pub statuses : List (Async P)

module _ {ℓ κ} {S : Type ℓ} {P : Type κ} (reducer : S → Async P → Dispatched S) where
  -- store.dispatch, and whether it throws
  abbrev pub dispatch_status : Async P → Told S P → Told S P × Option Error
  dispatch_status status told =
      let noted = record told { statuses = told.statuses ++ status ∷ [] } in
      elim (reducer told.state status) [
        | reduced state ↦ (record noted { state = state }, none)
        | threw e ↦ (noted, some e)
      ]

  -- What the promise that the middleware returns becomes: the action's, or what the dispatch of a
  -- rejected status throws.
  abbrev returned : Option Error → Outcome P → Outcome P
  returned none outcome = outcome
  returned (some e) outcome = failed e

  -- promise.catch(…)
  unfoldable pub catch_error : Option Error → Outcome P → Told S P → Told S P × Outcome P
  catch_error none outcome told = (told, outcome)
  catch_error (some e) outcome told =
      let (after, thrown) = dispatch_status (rejected e) told in (after, returned thrown outcome)

  -- The middleware, once `next` has taken the pending status, when the action's promise ends.
  unfoldable pub finish : Outcome P → Told S P → Told S P × Outcome P
  unfolding catch_error
  finish (done payload) told =
      let (after, thrown) = dispatch_status (resolved payload) told in
      catch_error thrown (done payload) after
  finish (failed e) told = catch_error (some e) (failed e) told

  -- How the middleware is left: it has thrown what `next` throws, or it has returned a promise that
  -- ends so.
  pub data Left : Type (ℓ ⊔ κ) where
    has_thrown : Error → Told S P → Left
    promised : Told S P × Outcome P → Left

  -- What is dispatched after `next` has thrown: the promise has no `catch` then.
  unfoldable pub finish_uncaught : Outcome P → Told S P → Told S P
  finish_uncaught (done payload) told = (dispatch_status (resolved payload) told).0
  finish_uncaught (failed e) told = told

  abbrev go_on : Outcome P → Told S P × Option Error → Left
  go_on outcome (told, none) = promised (finish outcome told)
  go_on outcome (told, some e) = has_thrown e (finish_uncaught outcome told)

  -- middleware, for an action whose promise ends with this outcome
  unfoldable pub middleware : Outcome P → Told S P → Left
  middleware outcome told = go_on outcome (dispatch_status pending told)
