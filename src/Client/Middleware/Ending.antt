-- ===== src/Client/Middleware/Ending.antt =====
-- What the store is told in the end (src/client/async/middleware.ts).
use model_lib.Prelude.{◌≡◌, refl, ap, none, some, List, [], ◌∷◌, ◌++◌}
use model_lib.Actions.{Async, pending, resolved, rejected, Error}
use model_lib.Client.Capture.{Outcome, done, failed}
use model_lib.Client.Middleware.{
  Dispatched, reduced, threw, Told, dispatch_status, catch_error, finish, promised, middleware,
}

-- A status that is not pending.
abbrev pub IsOver {ℓ} : {P : Type ℓ} → Async P → Type 0
IsOver pending = ⊥
IsOver (resolved payload) = Unit
IsOver (rejected e) = Unit

module _ {ℓ κ} {S : Type ℓ} {P : Type κ} (reducer : S → Async P → Dispatched S) where
  -- From the state `s`, the store has taken a last status, that is not pending.
  abbrev pub Settles : S → Told S P → Type (ℓ ⊔ κ)
  Settles s after =
      (earlier : List (Async P)) × (status : Async P) × (after.statuses ≡ earlier ++ status ∷ [])
      × IsOver status
      × (reducer s status ≡ reduced after.state)

  dispatch-reduced :
      (status : Async P) (told : Told S P) (s : S)
      → reducer told.state status ≡ reduced s
      → dispatch_status reducer status told
        ≡ (record { state = s; statuses = told.statuses ++ status ∷ [] }, none)
  dispatch-reduced status told s e = rw (e, dispatch_status) refl

  dispatch-threw :
      (status : Async P) (told : Told S P) (thrown : Error)
      → reducer told.state status ≡ threw thrown
      → dispatch_status reducer status told
        ≡ (record { state = told.state; statuses = told.statuses ++ status ∷ [] }, some thrown)
  dispatch-threw status told thrown e = rw (e, dispatch_status) refl

  -- What the rejected status leads to, whatever was dispatched before.
  catch-Settles :
      (outcome : Outcome P) (e : Error) (told : Told S P) (s : S)
      → reducer told.state (rejected e) ≡ reduced s
      → (after : Told S P) × (catch_error reducer (some e) outcome told ≡ (after, outcome))
        × Settles told.state after
  unfolding catch_error
  catch-Settles outcome e told s taken = (
    record { state = s; statuses = told.statuses ++ rejected e ∷ [] },
    rw (dispatch-reduced (rejected e) told s taken) refl,
    (told.statuses, rejected e, refl, tt, taken),
  )

  module _ (rejects : (s : S) (e : Error) → (s' : S) × (reducer s (rejected e) ≡ reduced s')) where
    resolved-Settles :
        (payload : P) (told : Told S P) (r : Dispatched S)
        → reducer told.state (resolved payload) ≡ r
        → (after : Told S P) × (finish reducer (done payload) told ≡ (after, done payload))
          × Settles told.state after
    unfolding finish catch_error
    resolved-Settles payload told (reduced s) e = (
      record { state = s; statuses = told.statuses ++ resolved payload ∷ [] },
      rw (dispatch-reduced (resolved payload) told s e) refl,
      (told.statuses, resolved payload, refl, tt, e),
    )
    resolved-Settles payload told (threw thrown) e =
        let noted : Told S P = record {
          state = told.state;
          statuses = told.statuses ++ resolved payload ∷ [];
        } in
        let (s, taken) = rejects told.state thrown in
        let (after, same, settled) = catch-Settles (done payload) thrown noted s taken in
        (after, rw (dispatch-threw (resolved payload) told thrown e) same, settled)

    finish-Settles :
        (outcome : Outcome P) (told : Told S P)
        → (after : Told S P) × (finish reducer outcome told ≡ (after, outcome))
          × Settles told.state after
    unfolding finish
    finish-Settles (done payload) told =
        resolved-Settles payload told (reducer told.state (resolved payload)) refl
    finish-Settles (failed e) told =
        let (s, taken) = rejects told.state e in catch-Settles (failed e) e told s taken

    -- If the reducers take the pending status and never throw on a rejected one, then an action
    -- that is a promise leaves nothing pending, however the promise ends and whatever they throw
    -- on the resolved status: the store at last takes a status that is not pending, in the state
    -- that the pending one led to, and the promise that the middleware returns ends as the
    -- action's.
    pub middleware-Settles :
        (outcome : Outcome P) (told : Told S P) (asked : S)
        → reducer told.state pending ≡ reduced asked
        → (after : Told S P) × (middleware reducer outcome told ≡ promised (after, outcome))
          × Settles asked after
    unfolding middleware
    middleware-Settles outcome told asked e =
        let noted : Told S P = record { state = asked; statuses = told.statuses ++ pending ∷ [] } in
        let (after, same, settled) = finish-Settles outcome noted in
        (after, rw (dispatch-reduced pending told asked e) (ap promised same), settled)
