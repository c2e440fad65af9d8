-- ===== src/SocketClient/Modes.antt =====
-- The connection to the server by the state of the last WebSocket (src/client/ws/index.ts).
use model_lib.Prelude.{
  ℕ, suc, String, ◌≡◌, ◌≢◌, refl, ap, Bool, true, false, Option, none, some, List, [], ◌∷◌, ◌++◌,
  ◌⊎◌, inl, inr, ◌==◌, if◌then◌else◌, arith, Bool-cases,
}
use model_lib.Page.{update}
use model_lib.SocketClient.{
  SocketClient, Phase, opening, opened, closing, closed, emit, after_sending, Emitted, connect,
  disconnect, message,
}

-- Whether the client is connected after these calls of `emit`, if they can follow on `b`: a connection
-- opens before it closes, and messages, whatever their types, come while it is open.
abbrev pub connected_after : Bool → List Emitted → Option Bool
connected_after b [] = some b
connected_after false (connect ∷ es) = connected_after true es
connected_after true (disconnect ∷ es) = connected_after false es
connected_after true (message type payload ∷ es) = connected_after true es
connected_after b (_ ∷ es) = none

-- Whether the client pings: an interval is running exactly if there is a timeout for it.
pub data Pings (c : SocketClient) : Type 0 where
  never : c.ping_interval_timeout ≡ 0 → c.intervals ≡ [] → Pings c
  by : (i : ℕ) → c.ping_interval ≡ some i → c.intervals ≡ i ∷ [] → Pings c

-- What the state of the last WebSocket says about the client.
pub data IsIn (c : SocketClient) : Phase → Type 0 where
  is_opening : c.connected ≡ false → c.intervals ≡ [] → c.reconnects ≡ 0 → IsIn c opening
  is_open : c.connected ≡ true → Pings c → c.reconnects ≡ 0 → IsIn c opened
  is_closing : c.connected ≡ true → Pings c → c.reconnects ≡ 0 → IsIn c closing
  is_closed :
      c.connected ≡ false
      → c.intervals ≡ []
      → c.reconnects ≡ (if c.reconnect_timeout == 0 then 0 else 1)
      → IsIn c closed

pub record IsClient (c : SocketClient) : Type 0 where
  pub last : suc c.socket ≡ c.sockets_made
  pub others_closed : (k : ℕ) → c.socket ≢ k → c.phases k ≡ closed
  pub mode : IsIn c (c.phases c.socket)
  pub story : connected_after false c.emitted ≡ some c.connected

abbrev pub and_then : Option Bool → Emitted → Option Bool
and_then none e = none
and_then (some b) e = connected_after b (e ∷ [])

pub connected_after-append :
    (b b' : Bool) (es : List Emitted) (e : Emitted)
    → connected_after b es ≡ some b'
    → connected_after b (es ++ e ∷ []) ≡ connected_after b' (e ∷ [])
connected_after-append b b' [] e h = ap (λ o. and_then o e) h
connected_after-append false b' (connect ∷ es) e h = connected_after-append true b' es e h
connected_after-append false b' (disconnect ∷ es) e h = cc
connected_after-append false b' (message type payload ∷ es) e h = cc
connected_after-append true b' (connect ∷ es) e h = cc
connected_after-append true b' (disconnect ∷ es) e h = connected_after-append false b' es e h
connected_after-append true b' (message type payload ∷ es) e h =
    connected_after-append true b' es e h

-- The one WebSocket that is not closed is the last.
pub live_is_last : (c : SocketClient) (k : ℕ) → IsClient c → c.phases k ≢ closed → c.socket ≡ k
live_is_last c k w ne = elim (Bool-cases (c.socket == k)) [
  | inl same ↦ ground arith
  | inr other ↦ absurd (ne (w.others_closed k (ground arith)))
]

-- What the mode of a client says, by the state of its last WebSocket.
pub opening_is :
    (c : SocketClient) (p : Phase)
    → IsIn c p
    → p ≡ opening
    → (c.connected ≡ false) × (c.intervals ≡ []) × (c.reconnects ≡ 0)
opening_is c _ (is_opening a b d) e = (a, b, d)
opening_is c _ (is_open a b d) e = cc
opening_is c _ (is_closing a b d) e = cc
opening_is c _ (is_closed a b d) e = cc

pub live_mode :
    (c : SocketClient) (p : Phase)
    → IsIn c p
    → p ≢ closed
    → ((c.connected ≡ false) × (c.intervals ≡ []) × (c.reconnects ≡ 0))
      ⊎ ((c.connected ≡ true) × Pings c × (c.reconnects ≡ 0))
live_mode c _ (is_opening a b d) ne = inl (a, b, d)
live_mode c _ (is_open a b d) ne = inr (a, b, d)
live_mode c _ (is_closing a b d) ne = inr (a, b, d)
live_mode c _ (is_closed a b d) ne = absurd (ne refl)

pub due_mode :
    (c : SocketClient) (n : ℕ)
    → c.reconnects ≡ suc n
    → (p : Phase) → IsIn c p
    → (p ≡ closed) × (c.connected ≡ false) × (c.intervals ≡ []) × (n ≡ 0)
due_mode c n e _ (is_opening a b d) = absurd (omega (arith, e, d))
due_mode c n e _ (is_open a b d) = absurd (omega (arith, e, d))
due_mode c n e _ (is_closing a b d) = absurd (omega (arith, e, d))
due_mode c n e _ (is_closed a b d) = (refl, a, b, ground (arith, e, d))

pub set_last : (f : ℕ → Phase) (k : ℕ) (p : Phase) → update f k p k ≡ p
set_last f k p = ground arith

pub set_other :
    (c : SocketClient) (k : ℕ) (p : Phase)
    → IsClient c
    → c.socket ≡ k
    → (j : ℕ) → c.socket ≢ j
    → update c.phases k p j ≡ closed
set_other c k p w e j ne = ground (arith, w.others_closed j ne)

-- What is emitted and sent says nothing about the mode.
pub told_mode :
    (c : SocketClient) (emitted : List Emitted) (sent : List (ℕ × String)) (p : Phase)
    → IsIn c p
    → IsIn (record c { emitted = emitted; sent = sent }) p
told_mode c es ss _ (is_opening a b d) = is_opening a b d
told_mode c es ss _ (is_open a (never z q) d) = is_open a (never z q) d
told_mode c es ss _ (is_open a (by i z q) d) = is_open a (by i z q) d
told_mode c es ss _ (is_closing a (never z q) d) = is_closing a (never z q) d
told_mode c es ss _ (is_closing a (by i z q) d) = is_closing a (by i z q) d
told_mode c es ss _ (is_closed a b d) = is_closed a b d

-- What an open client is.
pub open_mode :
    (c : SocketClient) (p : Phase)
    → IsIn c p
    → p ≡ opened
    → (c.connected ≡ true) × Pings c × (c.reconnects ≡ 0)
open_mode c _ (is_opening a b d) e = cc
open_mode c _ (is_open a b d) e = (a, b, d)
open_mode c _ (is_closing a b d) e = cc
open_mode c _ (is_closed a b d) e = cc

pub begun_mode :
    (c : SocketClient) (phases : ℕ → Phase)
    → Pings c
    → c.connected ≡ true
    → c.reconnects ≡ 0
    → IsIn (record c { phases = phases }) closing
begun_mode c phases (never z q) on none_due = is_closing on (never z q) none_due
begun_mode c phases (by i z q) on none_due = is_closing on (by i z q) none_due

-- A connected client's last WebSocket is open, or it has begun to close.
pub on_mode :
    (c : SocketClient) (p : Phase) → IsIn c p → c.connected ≡ true → (p ≡ opened) ⊎ (p ≡ closing)
on_mode c _ (is_opening a b d) on = cc
on_mode c _ (is_open a b d) on = inl refl
on_mode c _ (is_closing a b d) on = inr refl
on_mode c _ (is_closed a b d) on = cc

sending_in :
    (text : String) (c : SocketClient) (P : SocketClient → Type 0) (p : Phase)
    → c.phases c.socket ≡ p
    → P (record c { sent = c.sent ++ (c.socket, text) ∷ [] })
    → P c
    → P (after_sending (emit text c))
unfolding emit
sending_in text c P opening e q same = rw (e, emit) same
sending_in text c P opened e q same = rw (e, emit) q
sending_in text c P closing e q same = rw (e, emit) same
sending_in text c P closed e q same = rw (e, emit) same

-- Sending changes only the record of what is sent.
pub sending-same :
    (text : String) (c : SocketClient) (P : SocketClient → Type 0)
    → P (record c { sent = c.sent ++ (c.socket, text) ∷ [] })
    → P c
    → P (after_sending (emit text c))
sending-same text c P q same = sending_in text c P (c.phases c.socket) refl q same

pub sent-IsClient :
    (text : String) (c : SocketClient) → IsClient c → IsClient (after_sending (emit text c))
sent-IsClient text c w =
    sending-same text c IsClient
      (record {
        last = w.last;
        others_closed = w.others_closed;
        mode = told_mode c c.emitted _ _ w.mode;
        story = w.story;
      })
      w
