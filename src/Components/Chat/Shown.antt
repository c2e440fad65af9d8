-- ===== src/Components/Chat/Shown.antt =====
-- What the chat shows (src/client/components/Chat.tsx and src/client/components/Input.tsx).
use model_lib.Prelude.{
  String, ◌≡◌, refl, ap, ◌∙◌, Bool, true, false, List, [], ◌∷◌, ◌++◌, map, arith, ◌=?◌,
}
use mathlib.Core.List.{append-nil}
use model_lib.Actions.{Message, me, PeerMessage}
use model_lib.Reducers.Nicknames.{Nicknames, get_nickname}
use model_lib.Store.{Env, App}
use model_lib.Client.Chat.{own_message}
use model_lib.Page.{Page, Call}
use model_lib.Client.PeerHandler.{returned, handle_data}
use model_lib.Client.Messaging.{
  arrived, message_add_lem, told, told-page, send_message-ended, handle_data-stringify,
}
use model_lib.Client.Chat.Reaching.{all_can_send, sends, reached-all}
use model_lib.Components.Html.{nodes}
use model_lib.Components.Html.Queries.{texts, texts_below}
use model_lib.Components.Input.{Field, emptied, submit}
use model_lib.Components.Input.View.{input_html, smile_html, smiles}
use model_lib.Components.Chat.{message_entry, message_item, history_items, chat_html}

-- The name, the time and the text of each message.
abbrev pub rows : Nicknames → List Message → List String
rows nicknames [] = []
rows nicknames (m ∷ ms) =
    get_nickname nicknames m.user_id ∷ m.timestamp ∷ m.message ∷ rows nicknames ms

abbrev pub shown : Nicknames → List Message → List String
shown nicknames [] = "No Notifications" ∷ []
shown nicknames (m ∷ ms) = rows nicknames (m ∷ ms)

item-texts :
    (nicknames : Nicknames) (m : Message)
    → texts (message_item nicknames m)
      ≡ get_nickname nicknames m.user_id ∷ m.timestamp ∷ m.message ∷ []
unfolding message_item message_entry texts
item-texts nicknames m = ground arith

items-texts :
    (nicknames : Nicknames) (ms : List Message)
    → texts_below (nodes (map (message_item nicknames) ms)) ≡ rows nicknames ms
unfolding texts
items-texts nicknames [] = refl
items-texts nicknames (m ∷ ms) = cc (item-texts nicknames m, items-texts nicknames ms)

history-texts :
    (nicknames : Nicknames) (ms : List Message)
    → texts_below (nodes (history_items nicknames ms)) ≡ shown nicknames ms
unfolding history_items texts
history-texts nicknames [] = refl
history-texts nicknames (m ∷ ms) = items-texts nicknames (m ∷ ms)

input-texts : (message : String) → texts (input_html message) ≡ smiles
unfolding input_html smile_html texts
input-texts message = refl

chat-texts :
    (visible : Bool) (nicknames : Nicknames) (ms : List Message) (message : String)
    → texts (chat_html visible nicknames ms message) ≡ "Chat" ∷ shown nicknames ms ++ smiles
unfolding chat_html texts
chat-texts visible nicknames ms message =
    cc (history-texts nicknames ms, input-texts message, append-nil smiles)

rows-append :
    (nicknames : Nicknames) (ms ms' : List Message)
    → rows nicknames (ms ++ ms') ≡ rows nicknames ms ++ rows nicknames ms'
rows-append nicknames [] ms' = refl
rows-append nicknames (m ∷ ms) ms' = cc (rows-append nicknames ms ms')

shown-append :
    (nicknames : Nicknames) (ms : List Message) (m : Message)
    → shown nicknames (ms ++ m ∷ [])
      ≡ rows nicknames ms ++ get_nickname nicknames m.user_id ∷ m.timestamp ∷ m.message ∷ []
shown-append nicknames [] m = refl
shown-append nicknames (n ∷ ms) m = rows-append nicknames (n ∷ ms) (m ∷ [])

-- Who wrote a message, when and what.
abbrev pub own_row : Nicknames → (now message : String) → List String
own_row nicknames now message = get_nickname nicknames me ∷ now ∷ message ∷ []

told-messages :
    (env : Env) (message : String) (app : App)
    → (told env (PeerMessage.text message) app).state.messages.list
      ≡ app.state.messages.list ++ own_message (PeerMessage.text message) app.page.now ∷ []
unfolding own_message
told-messages env message app =
    (message_add_lem env (own_message (PeerMessage.text message) app.page.now) app refl).0

pub told-rows :
    (env : Env) (message : String) (app : App) (nicknames : Nicknames)
    → rows nicknames (told env (PeerMessage.text message) app).state.messages.list
      ≡ rows nicknames app.state.messages.list ++ own_row nicknames app.page.now message
unfolding own_message
told-rows env message app nicknames =
    ap (rows nicknames) (told-messages env message app)
    ∙ rows-append nicknames app.state.messages.list _

-- What the chat shows once the local user's text has been added.
pub told-shown :
    (env : Env) (message : String) (app : App) (visible : Bool) (nicknames : Nicknames)
    (field : String)
    → texts (
        chat_html visible nicknames
          (told env (PeerMessage.text message) app).state.messages.list
          field)
      ≡ "Chat" ∷ (rows nicknames app.state.messages.list ++ own_row nicknames app.page.now message)
        ++ smiles
unfolding own_message
told-shown env message app visible nicknames field =
    chat-texts visible nicknames _ field
    ∙ ap (λ ms. "Chat" ∷ shown nicknames ms ++ smiles) (told-messages env message app)
    ∙ ap (λ l. "Chat" ∷ l ++ smiles)
        (shown-append nicknames app.state.messages.list
          (own_message (PeerMessage.text message) app.page.now))

module _ (env : Env) (f : Field) (full : (f.message =? "") ≡ false) where
  pub submit-returned :
      all_can_send env f.app.page f.app.state.peers ≡ true
      → submit env f ≡ emptied (told env (PeerMessage.text f.message) f.app)
  unfolding submit
  submit-returned on =
      rw (full, submit, send_message-ended env (PeerMessage.text f.message) f.app, on) refl

  pub submit-threw :
      all_can_send env f.app.page f.app.state.peers ≡ false
      → submit env f ≡ record f { app = told env (PeerMessage.text f.message) f.app }
  unfolding submit
  submit-threw off =
      rw (full, submit, send_message-ended env (PeerMessage.text f.message) f.app, off) refl

-- A text that is not empty and is submitted while every peer can be sent to is sent once to each
-- peer, and the field is emptied; the chat then shows the messages of before, each with its
-- name, its time and its text, in their order, and last the text, under the local user's name,
-- at the time of the submit. A peer that gets what was sent shows it last in its chat, under the
-- name that it knows of the sender, at the time when it comes.
pub submit-shown_everywhere :
    (env : Env) (f : Field) (visible : Bool) (nicknames : Nicknames) (peer_id sender_id : String)
    (peer : App) (peer_visible : Bool) (peer_nicknames : Nicknames) (peer_field : String)
    → (f.message =? "") ≡ false
    → all_can_send env f.app.page f.app.state.peers ≡ true
    → let after = submit env f in
      let sent = env.json.stringify (PeerMessage.text f.message) in
      (after.app.page.calls
        ≡ f.app.page.calls ++ map (λ e. Call.peer_send e.1 sent) f.app.state.peers)
      × (after.message ≡ "")
      × (texts (chat_html visible nicknames after.app.state.messages.list after.message)
          ≡ "Chat"
              ∷ (rows nicknames f.app.state.messages.list
                  ++ get_nickname nicknames me ∷ f.app.page.now ∷ f.message ∷ [])
            ++ smiles)
      × ((peer' : App) × (handle_data (record env { user_id = peer_id }) sender_id sent peer
            ≡ returned peer')
          × (texts (chat_html peer_visible peer_nicknames peer'.state.messages.list peer_field)
              ≡ "Chat"
                  ∷ (rows peer_nicknames peer.state.messages.list
                      ++ get_nickname peer_nicknames sender_id ∷ peer.page.now ∷ f.message ∷ [])
                ++ smiles))
submit-shown_everywhere env f visible nicknames peer_id sender_id peer peer_visible peer_nicknames
      peer_field full on =
    let m = PeerMessage.text f.message in
    let (peer', arrives, _, list, _) =
      handle_data-stringify (record env { user_id = peer_id }) sender_id m peer in
    rw (submit-returned env f full on) (
      ap (λ (page : Page). page.calls) (told-page env m f.app)
          ∙ ap (λ ps. f.app.page.calls ++ sends env m ps)
              (reached-all env f.app.page f.app.state.peers on),
      refl,
      told-shown env f.message f.app visible nicknames "",
      (
        peer',
        arrives,
        chat-texts peer_visible peer_nicknames peer'.state.messages.list peer_field
            ∙ ap (λ ms. "Chat" ∷ shown peer_nicknames ms ++ smiles) list
            ∙ ap (λ l. "Chat" ∷ l ++ smiles)
                (shown-append peer_nicknames peer.state.messages.list
                  (arrived sender_id m peer.page.now)),
      ),
    )
