-- ===== src/Client/Chat/Reaching.antt =====
-- Which peers a message reaches (sendMessage in src/client/actions/PeerActions.ts).
use model_lib.Prelude.{
  ◌≡◌, refl, sym, ap, subst, ◌∙◌, Bool, true, false, ◌&&◌, List, [], ◌∷◌, ◌++◌, map, if◌then◌else◌,
  Bool-cases, inl, inr, arith, some, any, ◌==◌,
}
use mathlib.Core.List.{append_assoc, append-nil}
use model_lib.Actions.{Peer, PeerMessage}
use model_lib.Page.{Page, Call, Listeners}
use model_lib.Reducers.Peers.{PeersState}
use model_lib.Store.{Env, App}
use model_lib.Client.PeerHandler.{Handled, returned, threw, app_of, on_page}
use model_lib.Client.Chat.{can_send, send_data, send_all}

-- A handler that returns or throws.
abbrev pub ended : Bool → App → Handled
ended b app = if b then returned app else threw app

pub app_of-ended : (b : Bool) (app : App) → app_of (ended b app) ≡ app
app_of-ended true app = refl
app_of-ended false app = refl

abbrev pub with_call_list : List Call → App → App
with_call_list cs = on_page (λ page. record page { calls = cs })

abbrev pub with_calls : List Call → App → App
with_calls cs app = with_call_list (app.page.calls ++ cs) app

module _ (env : Env) where
  -- The peers before the first one that cannot be sent to.
  abbrev pub reached : Page → PeersState → PeersState
  reached page [] = []
  reached page (e ∷ ps) =
      let rest = reached page ps in if can_send env page e.1 then e ∷ rest else []

  abbrev pub all_can_send : Page → PeersState → Bool
  all_can_send page [] = true
  all_can_send page (e ∷ ps) = can_send env page e.1 && all_can_send page ps

  pub reached-all :
      (page : Page) (ps : PeersState) → all_can_send page ps ≡ true → reached page ps ≡ ps
  reached-all page [] on = refl
  reached-all page (e ∷ ps) on = grind (arith, reached-all page ps, on)

  can_send-waiting :
      (page : Page) (peer : Peer) (l : Listeners)
      → page.listeners peer ≡ some l
      → l.on_connect ≡ true
      → can_send env page peer ≡ false
  unfolding can_send
  can_send-waiting page peer l heard waits =
      ap env.send_returns heard ∙ env.send_before_connect l waits

  -- A peer whose event `connect` has not come ends the loop.
  pub all_can_send-waiting :
      (page : Page) (ps : PeersState) (peer : Peer) (l : Listeners)
      → any (λ e. e.1 == peer) ps ≡ true
      → page.listeners peer ≡ some l
      → l.on_connect ≡ true
      → all_can_send page ps ≡ false
  all_can_send-waiting page [] peer l here heard waits = cc
  all_can_send-waiting page (e ∷ ps) peer l here heard waits = elim (Bool-cases (e.1 == peer)) [
    | inl same ↦
        let this : peer ≡ e.1 = ground (arith, same) in
        subst (λ p. (can_send env page p && all_can_send page ps) ≡ false) this
          (ap (λ b. b && all_can_send page ps) (can_send-waiting page peer l heard waits))
    | inr other ↦
        ground
          (arith, all_can_send-waiting page ps peer l (ground (arith, here, other)) heard waits)
  ]

  -- The calls made do not matter to whether a connection can send.
  pub connected-called :
      (page : Page) (cs : List Call) (ps : PeersState)
      → let called : Page = record page { calls = cs } in
        (reached called ps ≡ reached page ps) × (all_can_send called ps ≡ all_can_send page ps)
  unfolding can_send
  connected-called page cs [] = (refl, refl)
  connected-called page cs (e ∷ ps) =
      let (a, b) = connected-called page cs ps in
      (
        ap (λ rest. if can_send env page e.1 then e ∷ rest else []) a,
        ap (λ rest. can_send env page e.1 && rest) b,
      )

  -- The calls that send a message to peers.
  abbrev pub sends : PeerMessage → PeersState → List Call
  sends m = map (λ e. Call.peer_send e.1 (env.json.stringify m))

  send_data_lem :
      (m : PeerMessage) (peer : Peer) (app : App)
      → send_data env m peer app
        ≡ ended (can_send env app.page peer) (
            if can_send env app.page peer
            then with_calls (Call.peer_send peer (env.json.stringify m) ∷ []) app
            else app)
  unfolding send_data
  send_data_lem m peer app = elim (Bool-cases (can_send env app.page peer)) [
    | inl on ↦ rw on refl
    | inr off ↦ rw off refl
  ]

  pub send_all_lem :
      (m : PeerMessage) (ps : PeersState) (app : App)
      → send_all env m ps app
        ≡ ended (all_can_send app.page ps) (with_calls (sends m (reached app.page ps)) app)
  unfolding send_all
  send_all_lem m [] app =
      ap (λ cs. returned (with_call_list cs app)) (sym (append-nil app.page.calls))
  send_all_lem m (e ∷ ps) app =
      let sent = with_calls (Call.peer_send e.1 (env.json.stringify m) ∷ []) app in
      elim (Bool-cases (can_send env app.page e.1)) [
        | inl on ↦
            let (same_peers, same_ending) = connected-called app.page sent.page.calls ps in
            rw (send_data_lem m e.1 app, on)
              (send_all_lem m ps sent
                ∙ rw (same_peers, same_ending)
                    (ap (λ cs. ended (all_can_send app.page ps) (with_call_list cs app))
                      (append_assoc app.page.calls _ _)))
        | inr off ↦
            rw (send_data_lem m e.1 app, off)
              (ap (λ cs. threw (with_call_list cs app)) (sym (append-nil app.page.calls)))
      ]
