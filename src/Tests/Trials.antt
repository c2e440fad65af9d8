-- ===== src/Tests/Trials.antt =====
-- The address of the server, and instances of the theorems on the check of a TURN server and on the
-- page for trying out a connection.
use model_lib.Prelude.{refl, ◌≡◌, false, none, some, List, [], ◌∷◌, ◌++◌, any, ◌==◌}
use model_lib.Client.Address.{socket_origin, ws_url}
use model_lib.TurnCheck
use model_lib.TurnCheck.{offered, candidate, check_turn_server}
use model_lib.TurnCheck.Deciding.{sees_relay, verdict, check_turn_server-timed_out}
use model_lib.SimplePage
use model_lib.SimplePage.{
  SimplePage, new_page, page_event, page_of, connected, tracked, muted, unmuted, went_on, threw,
}
use model_lib.SimplePage.Elements.{muted_twice}
use model_lib.SimplePage.Signals.{after_history}

over_tls :
    ws_url "https://example.org" "/app" "room" "carol" ≡ "wss://example.org/app/ws/room/carol"
unfolding ws_url socket_origin
over_tls = refl

abbrev seen : List TurnCheck.TurnEvent
seen = offered "v=0" ∷ candidate none ∷ candidate (some "candidate:1 typ relay") ∷ []

check_turn_server-timed_out_example :
    (check_turn_server (seen ++ TurnCheck.timed_out ∷ candidate none ∷ [])).outcome
    ≡ some (verdict (sees_relay false seen))
check_turn_server-timed_out_example =
    check_turn_server-timed_out seen (candidate none ∷ []) (tt, (tt, (tt, tt)))

abbrev shown : SimplePage
shown = page_of (page_event "carol" "room" (tracked 10) new_page)

abbrev hidden : SimplePage
hidden = page_of (page_event "carol" "room" (muted 10) shown)

abbrev back : SimplePage
back = page_of (page_event "carol" "room" (unmuted 10) hidden)

muted_twice_example :
    (page_event "carol" "room" (muted 10) shown ≡ went_on hidden)
    × (any (λ e. e == 0) back.container ≡ false)
    × (page_event "carol" "room" (muted 10) hidden ≡ threw hidden)
    × (page_event "carol" "room" (muted 10) back ≡ threw back)
muted_twice_example = muted_twice "carol" "room" 10 new_page

abbrev history : List SimplePage.PageEvent
history = connected ∷ SimplePage.users "alice" ∷ SimplePage.users "carol" ∷ []

abbrev page : SimplePage
page = after_history "carol" "room" history
