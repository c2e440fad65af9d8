-- ===== src/SocketClient/Closing.antt =====
-- What is left when a WebSocket closes (wsHandleClose in src/client/ws/index.ts).
use model_lib.Prelude.{
  ℕ, suc, ◌≡◌, ◌≢◌, refl, sym, ap, ◌∙◌, subst, false, not, Option, none, some, List, [], ◌∷◌, inl,
  inr, ◌==◌, if◌then◌else◌, filter, arith, Bool-cases,
}
use model_lib.Page.{update}
use model_lib.SocketClient.{
  SocketClient, closed, disconnect, emit_event, remaining, finish_close, handle_close,
}
use model_lib.SocketClient.Modes.{
  connected_after, Pings, never, by, IsIn, is_closed, IsClient, connected_after-append,
  live_is_last, live_mode,
}

-- Clearing the interval leaves none.
still_quiet : (i : Option ℕ) (intervals : List ℕ) → intervals ≡ [] → remaining i intervals ≡ []
still_quiet none intervals h = h
still_quiet (some i) intervals h = ap (filter (λ j. not (j == i))) h

stops : (c : SocketClient) → Pings c → remaining c.ping_interval c.intervals ≡ []
stops c (never z q) = still_quiet c.ping_interval c.intervals q
stops c (by i p q) = rw (p, q) ground arith

finish_close-IsClient :
    (c : SocketClient)
    → suc c.socket ≡ c.sockets_made
    → ((k : ℕ) → c.phases k ≡ closed)
    → c.connected ≡ false
    → remaining c.ping_interval c.intervals ≡ []
    → c.reconnects ≡ 0
    → connected_after false c.emitted ≡ some false
    → IsClient (finish_close c)
unfolding finish_close
finish_close-IsClient c last all_closed off quiet none_due story =
    elim (Bool-cases (c.reconnect_timeout == 0)) [
      | inl never_again ↦ rw (never_again) record {
        last = last;
        others_closed = λ k ne. all_closed k;
        mode =
            subst (IsIn _) (sym (all_closed c.socket))
              (is_closed off quiet (ground (arith, none_due, never_again)));
        story = story ∙ ap some (sym off);
      }
      | inr again ↦ rw (again) record {
        last = last;
        others_closed = λ k ne. all_closed k;
        mode =
            subst (IsIn _) (sym (all_closed c.socket))
              (is_closed off quiet (ground (arith, none_due, again)));
        story = story ∙ ap some (sym off);
      }
    ]

pub closing-IsClient :
    (c : SocketClient) (k : ℕ)
    → c.phases k ≢ closed
    → IsClient c
    → IsClient (handle_close (record c { phases = update c.phases k closed }))
unfolding handle_close
closing-IsClient c k ne w =
    let same = live_is_last c k w ne in
    let all_closed : (j : ℕ) → update c.phases k closed j ≡ closed = λ j.
      elim (Bool-cases (c.socket == j)) [
        | inl this ↦ ground (arith, same)
        | inr other ↦ ground (arith, w.others_closed j)
      ] in
    let bare = record c { phases = update c.phases k closed } in
    let told = record (emit_event disconnect bare) { connected = false } in
    elim (live_mode c (c.phases c.socket) w.mode (λ q. ne (sym (ap c.phases same) ∙ q))) [
      | inl (off, quiet, none_due) ↦
          subst (λ b. IsClient (finish_close (if b then told else bare))) (sym off)
            (finish_close-IsClient bare w.last all_closed off
              (still_quiet c.ping_interval c.intervals quiet) none_due (w.story ∙ ap some off))
      | inr (on, pings, none_due) ↦
          subst (λ b. IsClient (finish_close (if b then told else bare))) (sym on)
            (finish_close-IsClient told w.last all_closed refl (stops c pings) none_due (
              connected_after-append false c.connected c.emitted disconnect w.story
              ∙ ap (λ b. connected_after b (disconnect ∷ [])) on))
    ]
