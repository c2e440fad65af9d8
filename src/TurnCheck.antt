-- ===== src/TurnCheck.antt =====
-- src/client/debug/index.ts, checkTURNServer: whether a connection through a TURN server can be had
-- before a timeout.
pub mod Deciding
use text.Mathlib.Text.{starts_with}
use Prim.Native.String.{[], ◌∷◌}
use model_lib.Prelude.{
  String, Bool, true, false, ◌&&◌, ◌||◌, Option, none, some, if◌then◌else◌, List, for_each,
}
use model_lib.Actions.{Error}
use model_lib.Client.Capture.{Outcome, done, failed}

-- text.indexOf(part) > -1
unfoldable pub holds_text : String → String → Bool
holds_text part [] = starts_with [] part
holds_text part (c ∷ s) = starts_with (c ∷ s) part || holds_text part s

abbrev pub relay : String
relay = "typ relay"

-- Whether the handler of candidates is there, and what the race of the two promises has become.
pub record Check : Type 0 where
  pub listening : Bool
  pub outcome : Option (Outcome Bool)

-- The end of createOffer, a candidate (the text is absent where the event has none), and the timeout.
pub data TurnEvent : Type 0 where
  offered : (sdp : String) → TurnEvent
  offer_failed : Error → TurnEvent
  candidate : Option String → TurnEvent
  timed_out : TurnEvent

abbrev pub too_late : Error
too_late = record { name = "Error"; message = "timed out" }

abbrev pub or_first : Option (Outcome Bool) → Outcome Bool → Option (Outcome Bool)
or_first none outcome = some outcome
or_first (some first) outcome = some first

-- The first promise to end decides the race.
unfoldable pub decide : Outcome Bool → Check → Check
decide outcome check = record check { outcome = or_first check.outcome outcome }

abbrev pub is_relay : Option String → Bool
is_relay none = false
is_relay (some text) = holds_text relay text

unfoldable pub check_event : TurnEvent → Check → Check
unfolding decide
check_event (offered sdp) check =
    if holds_text relay sdp then decide (done true) check else record check { listening = true }
check_event (offer_failed e) check = decide (failed e) check
check_event (candidate text) check =
    if check.listening && is_relay text then decide (done true) check else check
check_event timed_out check = decide (failed too_late) check

abbrev pub check_turn_server : List TurnEvent → Check
check_turn_server events =
    for_each check_event events (record { listening = false; outcome = none })
