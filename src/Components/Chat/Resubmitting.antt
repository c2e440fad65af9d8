-- ===== src/Components/Chat/Resubmitting.antt =====
-- A text that is submitted before every peer has connected (submit in
-- src/client/components/Input.tsx, sendMessage in src/client/actions/PeerActions.ts).
use model_lib.Prelude.{◌≡◌, refl, ap, ◌∙◌, Bool, true, false, some, any, ◌==◌, ◌∷◌, ◌++◌, ◌=?◌}
use model_lib.Actions.{Peer, PeerMessage}
use model_lib.Reducers.Nicknames.{Nicknames}
use model_lib.Store.{Env, App}
use model_lib.Page.{Page, Listeners}
use model_lib.Client.Chat.Reaching.{
  reached, all_can_send, sends, connected-called, all_can_send-waiting,
}
use model_lib.Client.Messaging.{told, told-page, told-peers}
use model_lib.Components.Html.Queries.{texts}
use model_lib.Components.Input.{Field, submit}
use model_lib.Components.Input.View.{smiles}
use model_lib.Components.Chat.{chat_html}
use model_lib.Components.Chat.Shown.{rows, own_row, told-rows, told-shown, submit-threw}

module _ (env : Env) where
  -- A message that has been told reaches the same peers when it is told again.
  told-connected :
      (m : PeerMessage) (app : App)
      → (reached env (told env m app).page (told env m app).state.peers
          ≡ reached env app.page app.state.peers)
        × (all_can_send env (told env m app).page (told env m app).state.peers
            ≡ all_can_send env app.page app.state.peers)
  told-connected m app =
      let (same_peers, same_ending) = connected-called env app.page _ app.state.peers in
      rw (told-page env m app, told-peers env m app) (same_peers, same_ending)

  -- A text that is not empty and is submitted while some peer of the state has not connected is
  -- sent only to the peers before the first one that cannot be sent to, and stays in the field,
  -- though the chat shows it; submitted again, it is sent to the same peers once more, stays in
  -- the field still, and the chat shows it twice.
  pub submit-shown_twice :
      (f : Field) (visible : Bool) (nicknames : Nicknames) (peer : Peer) (l : Listeners)
      → (f.message =? "") ≡ false
      → any (λ e. e.1 == peer) f.app.state.peers ≡ true
      → f.app.page.listeners peer ≡ some l
      → l.on_connect ≡ true
      → let once = submit env f in
        let twice = submit env once in
        let sent =
          sends env (PeerMessage.text f.message) (reached env f.app.page f.app.state.peers) in
        let row = own_row nicknames f.app.page.now f.message in
        (once.message ≡ f.message)
        × (once.app.page.calls ≡ f.app.page.calls ++ sent)
        × (twice.message ≡ f.message)
        × (twice.app.page.calls ≡ f.app.page.calls ++ sent ++ sent)
        × (texts (chat_html visible nicknames twice.app.state.messages.list twice.message)
            ≡ "Chat" ∷ (rows nicknames f.app.state.messages.list ++ row ++ row) ++ smiles)
  submit-shown_twice f visible nicknames peer l full here heard waits =
      let off = all_can_send-waiting env f.app.page f.app.state.peers peer l here heard waits in
      let m = PeerMessage.text f.message in
      let first = told env m f.app in
      let once = record f { app = first } in
      let (same_peers, same_ending) = told-connected m f.app in
      let page = told-page env m f.app in
      rw (submit-threw env f full off, submit-threw env once full (same_ending ∙ off))
        (
          refl,
          ap (λ (p : Page). p.calls) page,
          refl,
          ap (λ (p : Page). p.calls) (told-page env m first)
              ∙ ap (λ ps. first.page.calls ++ sends env m ps) same_peers
              ∙ ap (λ (p : Page). p.calls ++ sends env m (reached env f.app.page f.app.state.peers))
                  page,
          told-shown env f.message first visible nicknames f.message
              ∙ ap
                  (λ (p : Page).
                    "Chat"
                      ∷ (rows nicknames first.state.messages.list
                          ++ own_row nicknames p.now f.message)
                    ++ smiles)
                  page
              ∙ ap (λ rs. "Chat" ∷ (rs ++ own_row nicknames f.app.page.now f.message) ++ smiles)
                  (told-rows env f.message f.app nicknames),
        )
