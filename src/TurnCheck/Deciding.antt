-- ===== src/TurnCheck/Deciding.antt =====
-- What checkTURNServer of src/client/debug/index.ts finds.
use model_lib.Prelude.{
  ◌≡◌, refl, ap, ◌∙◌, Bool, true, false, ◌&&◌, ◌||◌, none, some, List, [], ◌∷◌, ◌++◌, All, for_each,
  for_each-append, if◌then◌else◌, arith,
}
use model_lib.Client.Capture.{Outcome, done, failed}
use model_lib.TurnCheck.{
  Check, TurnEvent, offered, offer_failed, candidate, timed_out, too_late, holds_text, relay,
  is_relay, or_first, decide, check_event, check_turn_server,
}

-- An event that comes of the connection, and not of a failure or of the timeout.
abbrev pub IsShowing : TurnEvent → Type 0
IsShowing (offered sdp) = Unit
IsShowing (candidate text) = Unit
IsShowing (offer_failed e) = ⊥
IsShowing timed_out = ⊥

-- Whether a relay is seen: in an offer, or in a candidate after an offer that has none.
abbrev pub sees_relay : Bool → List TurnEvent → Bool
sees_relay offer_made [] = false
sees_relay offer_made (offered sdp ∷ events) = holds_text relay sdp || sees_relay true events
sees_relay offer_made (candidate text ∷ events) =
    (offer_made && is_relay text) || sees_relay offer_made events
sees_relay offer_made (offer_failed e ∷ events) = sees_relay offer_made events
sees_relay offer_made (timed_out ∷ events) = sees_relay offer_made events

check_event-stays :
    (h : TurnEvent) (check : Check) (outcome : Outcome Bool)
    → check.outcome ≡ some outcome
    → (check_event h check).outcome ≡ some outcome
unfolding check_event decide
check_event-stays (offered sdp) check outcome e = ground (arith, e)
check_event-stays (candidate text) check outcome e = ground (arith, e)
check_event-stays (offer_failed x) check outcome e = ap (λ o. or_first o (failed x)) e
check_event-stays timed_out check outcome e = ap (λ o. or_first o (failed too_late)) e

decided-stays :
    (events : List TurnEvent) (check : Check) (outcome : Outcome Bool)
    → check.outcome ≡ some outcome
    → (for_each check_event events check).outcome ≡ some outcome
decided-stays [] check outcome e = e
decided-stays (h ∷ events) check outcome e =
    decided-stays events (check_event h check) outcome (check_event-stays h check outcome e)

abbrev pub verdict : Bool → Outcome Bool
verdict true = done true
verdict false = failed too_late

-- A relay decides the check; without one, it goes on.
relay_or :
    (b seen : Bool) (events : List TurnEvent) (check other : Check)
    → check.outcome ≡ none
    → (check_event timed_out (for_each check_event events other)).outcome ≡ some (verdict seen)
    → (check_event timed_out
        (for_each check_event events (if b then decide (done true) check else other))).outcome
      ≡ some (verdict (b || seen))
unfolding decide
relay_or true seen events check other e h =
    check_event-stays timed_out (for_each check_event events (decide (done true) check)) (done true)
      (decided-stays events (decide (done true) check) (done true)
        (ap (λ o. or_first o (done true)) e))
relay_or false seen events check other e h = h

up_to_timeout :
    (before : List TurnEvent) (check : Check)
    → All IsShowing before
    → check.outcome ≡ none
    → (check_event timed_out (for_each check_event before check)).outcome
      ≡ some (verdict (sees_relay check.listening before))
unfolding check_event decide
up_to_timeout [] check showing e = ap (λ o. or_first o (failed too_late)) e
up_to_timeout (offered sdp ∷ events) check showing e =
    let listening = record check { listening = true } in
    relay_or (holds_text relay sdp) (sees_relay true events) events check listening e
      (up_to_timeout events listening showing.1 e)
up_to_timeout (candidate text ∷ events) check showing e =
    relay_or (check.listening && is_relay text) (sees_relay check.listening events) events check
      check e (up_to_timeout events check showing.1 e)
up_to_timeout (offer_failed x ∷ events) check showing e = absurd showing.0
up_to_timeout (timed_out ∷ events) check showing e = absurd showing.0

-- The check of a TURN server always ends by its timeout, if createOffer does not fail before:
-- with true if a relay has been seen, in the offer or in a candidate after an offer without one,
-- and else with the error of the timeout; nothing that happens later changes that.
pub check_turn_server-timed_out :
    (before after : List TurnEvent)
    → All IsShowing before
    → (check_turn_server (before ++ timed_out ∷ after)).outcome
      ≡ some (verdict (sees_relay false before))
check_turn_server-timed_out before after showing =
    let fresh : Check = record { listening = false; outcome = none } in
    ap (λ (c : Check). c.outcome) (for_each-append check_event before (timed_out ∷ after) fresh)
    ∙ decided-stays after (check_event timed_out (for_each check_event before fresh)) _
        (up_to_timeout before fresh showing refl)
