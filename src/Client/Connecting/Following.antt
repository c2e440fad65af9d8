-- ===== src/Client/Connecting/Following.antt =====
-- What the SocketClient emits, and what the store makes of it (init in src/client/actions/CallActions.ts).
use model_lib.Prelude.{
  ℕ, String, ◌≡◌, refl, sym, ◌∙◌, Bool, true, false, some, List, [], ◌∷◌, ◌++◌, inl, inr, ◌==◌,
  if◌then◌else◌, for_each, length, ◌=?◌, ◌≢◌, All, eq_iff, drop, arith, Bool-cases,
}
use mathlib.Core.List.{append-nil}
use model_lib.Page.{update}
use model_lib.SocketClient
use model_lib.SocketClient.{
  SocketClient, Phase, opening, opened, closed, Emitted, connect, disconnect, message, make_client,
  connect_socket, emit_event, finish_close, handle_close, handle_open, Sending, passed_on, emit,
  after_sending, Step, opening_ends, closing_begins, closing_ends, receiving, event_name, pinging,
  reconnecting,
}
use model_lib.SocketClient.Modes.{connected_after, sending-same}

pub drop-all : (xs ys : List Emitted) → drop (length xs) (xs ++ ys) ≡ ys
drop-all [] ys = refl
drop-all (x ∷ xs) ys = drop-all xs ys

-- What a step emits comes after what was emitted.
abbrev pub Tells : SocketClient → SocketClient → Type 0
Tells c c' = (es : List Emitted) × (c'.emitted ≡ c.emitted ++ es)

finish_close-emitted : (c : SocketClient) → (finish_close c).emitted ≡ c.emitted
unfolding finish_close
finish_close-emitted c = elim (Bool-cases (c.reconnect_timeout == 0)) [
  | inl never ↦ rw never refl
  | inr again ↦ rw again refl
]

finishing-Tells :
    (c : SocketClient) (phases : ℕ → Phase) (b : Bool)
    → let bare = record c { phases = phases } in
      Tells c (
        finish_close
          (if b then record (emit_event disconnect bare) { connected = false } else bare))
finishing-Tells c phases true =
    let bare = record c { phases = phases } in
    (
      disconnect ∷ [],
      finish_close-emitted (record (emit_event disconnect bare) { connected = false }),
    )
finishing-Tells c phases false =
    ([], finish_close-emitted (record c { phases = phases }) ∙ sym (append-nil c.emitted))

closing-Tells :
    (c : SocketClient) (phases : ℕ → Phase) → Tells c (handle_close (record c { phases = phases }))
unfolding handle_close
closing-Tells c phases = finishing-Tells c phases c.connected

opening-Tells :
    (c : SocketClient) (phases : ℕ → Phase) → Tells c (handle_open (record c { phases = phases }))
unfolding handle_open
opening-Tells c phases = elim (Bool-cases (c.ping_interval_timeout == 0)) [
  | inl never ↦ (connect ∷ [], rw never refl)
  | inr pings ↦ (connect ∷ [], rw pings refl)
]

pub step-Tells :
    (t : String) (c c' : SocketClient) (h : SocketClient.Happening) → Step t c h c' → Tells c c'
unfolding connect_socket
step-Tells t c _ _ (opening_ends _ k e) = opening-Tells c (update c.phases k opened)
step-Tells t c _ _ (closing_begins _ k e) = ([], sym (append-nil c.emitted))
step-Tells t c _ _ (closing_ends _ k ne) = closing-Tells c (update c.phases k closed)
step-Tells t c _ _ (receiving _ k type payload e) = (message type payload ∷ [], refl)
step-Tells t c _ _ (pinging _ i there) =
    sending-same t c (Tells c) ([], sym (append-nil c.emitted)) ([], sym (append-nil c.emitted))
step-Tells t c _ _ (reconnecting _ n e) = ([], sym (append-nil c.emitted))

-- Whether the store takes the client for connected after an event of the socket with this name.
abbrev pub told_by : String → Bool → Bool
told_by name b = if name =? "connect" then true else if name =? "disconnect" then false else b

abbrev pub told_after : Bool → List Emitted → Bool
told_after b es = for_each (λ e. told_by (event_name e)) es b

-- No message of the server has the name of an event of the connection.
abbrev pub IsServed : Emitted → Type 0
IsServed (message type payload) = (type ≢ "connect") × (type ≢ "disconnect")
IsServed _ = Unit

differs : (s t : String) → s ≢ t → (s =? t) ≡ false
differs s t ne = elim (Bool-cases (s =? t)) [
  | inl same ↦ absurd (ne ((eq_iff s t).0 same))
  | inr other ↦ other
]

-- Then the store follows the connection.
pub told_after-served :
    (b b' : Bool) (es : List Emitted)
    → connected_after b es ≡ some b'
    → All IsServed es
    → told_after b es ≡ b'
told_after-served b b' [] h served = ground (arith, h)
told_after-served false b' (connect ∷ es) h (_, served) = told_after-served true b' es h served
told_after-served false b' (disconnect ∷ es) h served = cc
told_after-served false b' (message type payload ∷ es) h served = cc
told_after-served true b' (connect ∷ es) h served = cc
told_after-served true b' (disconnect ∷ es) h (_, served) = told_after-served false b' es h served
told_after-served true b' (message type payload ∷ es) h ((a, d), served) =
    rw (differs type "connect" a, differs type "disconnect" d)
      (told_after-served true b' es h served)
