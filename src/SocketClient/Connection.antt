-- ===== src/SocketClient/Connection.antt =====
-- What holds of the connection to the server at all times (src/client/ws/index.ts).
use model_lib.Prelude.{
  ℕ, suc, String, ◌≡◌, refl, sym, ap, ◌∙◌, subst, true, false, some, [], ◌∷◌, ◌++◌, inl, inr, ◌==◌,
  arith, Bool-cases,
}
use model_lib.Page.{update}
use model_lib.SocketClient.{
  SocketClient, opening, opened, connect, message, connect_socket, make_client, emit_event,
  handle_open, Happening, Step, opening_ends, closing, closing_begins, closing_ends, receiving,
  pinging, reconnecting, Reachable, made, after,
}
use model_lib.SocketClient.Modes.{
  connected_after, never, by, IsIn, is_opening, is_open, IsClient, connected_after-append,
  live_is_last, opening_is, due_mode, set_last, set_other, told_mode, open_mode, begun_mode,
  sent-IsClient,
}
use model_lib.SocketClient.Closing.{closing-IsClient}

pub make_client-IsClient : (r p : ℕ) → IsClient (make_client r p)
unfolding make_client connect_socket
make_client-IsClient r p = record {
  last = refl;
  others_closed = λ k ne. ground arith;
  mode = is_opening refl refl refl;
  story = refl;
}

opening_ends-IsClient :
    (c : SocketClient) (k : ℕ)
    → c.phases k ≡ opening
    → IsClient c
    → IsClient (handle_open (record c { phases = update c.phases k opened }))
unfolding handle_open
opening_ends-IsClient c k e w =
    let same = live_is_last c k w (λ q. absurd (cc (e, q))) in
    let (off, quiet, none_due) = opening_is c (c.phases c.socket) w.mode (ap c.phases same ∙ e) in
    let now_open : update c.phases k opened c.socket ≡ opened =
      ap (update c.phases k opened) same ∙ set_last c.phases k opened in
    let story : connected_after false (c.emitted ++ connect ∷ []) ≡ some true =
      connected_after-append false c.connected c.emitted connect w.story
      ∙ ap (λ b. connected_after b (connect ∷ [])) off in
    elim (Bool-cases (c.ping_interval_timeout == 0)) [
      | inl none_set ↦ rw (none_set) record {
        last = w.last;
        others_closed = set_other c k opened w same;
        mode = subst (IsIn _) (sym now_open) (is_open refl (never (ground arith) quiet) none_due);
        story = story;
      }
      | inr set ↦ rw (set) record {
        last = w.last;
        others_closed = set_other c k opened w same;
        mode = subst (IsIn _) (sym now_open) (
            is_open refl (by c.intervals_made refl (ap (λ l. l ++ c.intervals_made ∷ []) quiet))
              none_due);
        story = story;
      }
    ]

reconnecting-IsClient :
    (c : SocketClient) (n : ℕ)
    → c.reconnects ≡ suc n
    → IsClient c
    → IsClient (connect_socket (record c { reconnects = n }))
unfolding connect_socket
reconnecting-IsClient c n e w =
    let (all_closed, off, quiet, due) = due_mode c n e (c.phases c.socket) w.mode in
    let fresh : update c.phases c.sockets_made opening c.sockets_made ≡ opening =
      set_last c.phases c.sockets_made opening in
    record {
      last = refl;
      others_closed = λ j ne. elim (Bool-cases (c.socket == j)) [
        | inl this ↦
            let here : c.socket ≡ j = ground arith in
            ground (arith, sym (ap c.phases here) ∙ all_closed)
        | inr other ↦ ground (arith, w.others_closed j)
      ];
      mode = subst (IsIn _) (sym fresh) (is_opening off quiet due);
      story = w.story;
    }

receiving-IsClient :
    (c : SocketClient) (k : ℕ) (type payload : String)
    → c.phases k ≡ opened
    → IsClient c
    → IsClient (emit_event (message type payload) c)
receiving-IsClient c k type payload e w =
    let same = live_is_last c k w (λ q. absurd (cc (e, q))) in
    let (on, _, _) = open_mode c (c.phases c.socket) w.mode (ap c.phases same ∙ e) in
    record {
      last = w.last;
      others_closed = w.others_closed;
      mode = told_mode c (c.emitted ++ message type payload ∷ []) c.sent _ w.mode;
      story =
          connected_after-append false c.connected c.emitted (message type payload) w.story
          ∙ ap (λ b. connected_after b (message type payload ∷ [])) on
          ∙ ap some (sym on);
    }

closing_begins-IsClient :
    (c : SocketClient) (k : ℕ)
    → c.phases k ≡ opened
    → IsClient c
    → IsClient (record c { phases = update c.phases k closing })
closing_begins-IsClient c k e w =
    let same = live_is_last c k w (λ q. absurd (cc (e, q))) in
    let (on, pings, none_due) = open_mode c (c.phases c.socket) w.mode (ap c.phases same ∙ e) in
    let begun : update c.phases k closing c.socket ≡ closing =
      ap (update c.phases k closing) same ∙ set_last c.phases k closing in
    record {
      last = w.last;
      others_closed = set_other c k closing w same;
      mode = subst (IsIn _) (sym begun) (begun_mode c _ pings on none_due);
      story = w.story;
    }

pub step-IsClient :
    (ping_text : String) (c c' : SocketClient) (h : Happening)
    → Step ping_text c h c'
    → IsClient c
    → IsClient c'
step-IsClient t c _ _ (opening_ends _ k e) w = opening_ends-IsClient c k e w
step-IsClient t c _ _ (closing_begins _ k e) w = closing_begins-IsClient c k e w
step-IsClient t c _ _ (closing_ends _ k ne) w = closing-IsClient c k ne w
step-IsClient t c _ _ (receiving _ k type payload e) w = receiving-IsClient c k type payload e w
step-IsClient t c _ _ (pinging _ i there) w = sent-IsClient t c w
step-IsClient t c _ _ (reconnecting _ n e) w = reconnecting-IsClient c n e w

-- At every time only the last WebSocket may be other than closed; the client's `connected` is
-- true exactly while that one is open or closing; it pings with one interval for just as long,
-- if it is to ping, and with none otherwise; one attempt to connect is due exactly while the
-- socket is closed, if the client is to reconnect; and what it has emitted of itself is a story
-- of connections, one after the other, with what it has emitted for the server's messages,
-- whatever their types, only inside them.
pub Reachable-IsClient :
    (ping_text : String) (c : SocketClient) → Reachable ping_text c → IsClient c
Reachable-IsClient t _ (made r p) = make_client-IsClient r p
Reachable-IsClient t _ (after c c' h before step) =
    step-IsClient t c c' h step (Reachable-IsClient t c before)
