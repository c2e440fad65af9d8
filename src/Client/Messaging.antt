-- ===== src/Client/Messaging.antt =====
-- A message that one client sends to its peers arrives (sendMessage and handleData in
-- src/client/actions/PeerActions.ts).
use model_lib.Prelude.{
  ◌+◌, String, ◌≡◌, refl, ap, ◌∙◌, false, none, some, [], ◌∷◌, ◌++◌, if◌then◌else◌,
}
use model_lib.Actions.{Action, Message, Peer, PeerMessage, received}
use model_lib.Page.{Page}
use model_lib.Reducers.Notifications.{notifications}
use model_lib.Reducers.Peers.{peers}
use model_lib.Reducers.Streams.{streams}
use model_lib.Reducers.Messages.{MessagesState, messages}
use model_lib.Store.{Env, App, dispatch}
use model_lib.Store.Dispatch.{dispatch-page, dispatch-peers, dispatch-messages}
use model_lib.Client.PeerHandler.{returned, message_of, handle_data, handle_parsed}
use model_lib.Client.Chat.{own_message, send_all, send_message}
use model_lib.Client.Chat.Reaching.{reached, all_can_send, ended, with_calls, sends, send_all_lem}

-- The message that a peer of `user_id` adds for a message that was sent to it.
abbrev pub arrived : String → PeerMessage → String → Message
arrived user_id m now = record {
  user_id = user_id;
  message = elim m [
    | PeerMessage.text payload ↦ payload
    | PeerMessage.file name size type data_url ↦ name
  ];
  timestamp = now;
  image = elim m [
    | PeerMessage.text payload ↦ none
    | PeerMessage.file name size type data_url ↦ some data_url
  ];
  system = false;
}

message_of-received :
    (user_id : String) (m : PeerMessage) (now : String)
    → message_of user_id (received m) now ≡ arrived user_id m now
unfolding message_of
message_of-received user_id (PeerMessage.text payload) now = refl
message_of-received user_id (PeerMessage.file name size type data_url) now = refl

module _ (env : Env) where
  add_message-page :
      (m : Message) (app : App) → (dispatch env (Action.message_add m) app).page ≡ app.page
  unfolding notifications peers streams
  add_message-page m app = dispatch-page env (Action.message_add m) app

  -- What the dispatch of a message does to the messages' slice.
  messages-added :
      (m : Message) (app : App)
      → (dispatch env (Action.message_add m) app).state.messages
        ≡ messages app.state.messages (Action.message_add m) app.page.now
  unfolding notifications
  messages-added m app = dispatch-messages env (Action.message_add m) app

  -- A message from a user, not the system, is the last of the list, and counts as unread.
  pub message_add_lem :
      (m : Message) (app : App)
      → m.system ≡ false
      → ((dispatch env (Action.message_add m) app).state.messages.list
          ≡ app.state.messages.list ++ m ∷ [])
        × ((dispatch env (Action.message_add m) app).state.messages.count
            ≡ app.state.messages.count + 1)
  unfolding messages
  message_add_lem m app from_user = (
    ap (λ (s : MessagesState). s.list) (messages-added m app),
    ap (λ (s : MessagesState). s.count) (messages-added m app)
        ∙ ap (λ b. if b then app.state.messages.count else app.state.messages.count + 1) from_user,
  )

  own_message-system : (m : PeerMessage) (now : String) → (own_message m now).system ≡ false
  unfolding own_message
  own_message-system (PeerMessage.file name size type data_url) now = refl
  own_message-system (PeerMessage.text payload) now = refl

  -- The client that has its own message and has sent it to the peers that it reaches.
  abbrev pub told : PeerMessage → App → App
  told m app =
      with_calls (sends env m (reached env app.page app.state.peers))
        (dispatch env (Action.message_add (own_message m app.page.now)) app)

  pub send_message-ended :
      (m : PeerMessage) (app : App)
      → send_message env m app ≡ ended (all_can_send env app.page app.state.peers) (told m app)
  unfolding send_message
  send_message-ended m app =
      let noted = dispatch env (Action.message_add (own_message m app.page.now)) app in
      ap (λ ps. send_all env m ps noted) (env.lodash.entries_all Peer app.state.peers)
      ∙ send_all_lem env m app.state.peers noted
      ∙ ap
          (λ page.
            ended (all_can_send env page app.state.peers)
              (with_calls (sends env m (reached env page app.state.peers)) noted))
          (add_message-page (own_message m app.page.now) app)

  pub told-page :
      (m : PeerMessage) (app : App)
      → (told m app).page ≡ record app.page {
        calls = app.page.calls ++ sends env m (reached env app.page app.state.peers);
      }
  told-page m app =
      ap
        (λ (page : Page). record page {
          calls = page.calls ++ sends env m (reached env app.page app.state.peers);
        })
        (add_message-page (own_message m app.page.now) app)

  pub told-peers : (m : PeerMessage) (app : App) → (told m app).state.peers ≡ app.state.peers
  unfolding peers
  told-peers m app = dispatch-peers env (Action.message_add (own_message m app.page.now)) app

  -- A message is sent once to each peer before the first one whose `send` throws, in their
  -- order, and nothing else changes in the page; sendMessage throws if there is such a peer, and
  -- returns if not. Either way the local user sees one more message, their own, and it counts.
  pub send_message_lem :
      (m : PeerMessage) (app : App)
      → (app' : App) × (send_message env m app
          ≡ ended (all_can_send env app.page app.state.peers) app')
        × (app'.page ≡ record app.page {
          calls = app.page.calls ++ sends env m (reached env app.page app.state.peers);
        })
        × (app'.state.messages.list ≡ app.state.messages.list ++ own_message m app.page.now ∷ [])
        × (app'.state.messages.count ≡ app.state.messages.count + 1)
  send_message_lem m app =
      let (list, count) =
        message_add_lem (own_message m app.page.now) app (own_message-system m app.page.now) in
      (told m app, send_message-ended m app, told-page m app, list, count)

  handle_data-arrived :
      (user_id : String) (m : PeerMessage) (app : App)
      → handle_data env user_id (env.json.stringify m) app
        ≡ returned (dispatch env (Action.message_add (arrived user_id m app.page.now)) app)
  unfolding handle_data
  handle_data-arrived user_id m app =
      ap (handle_parsed env user_id app) (env.json.parse-stringify m)
      ∙ ap (λ x. returned (dispatch env (Action.message_add x) app))
          (message_of-received user_id m app.page.now)

  -- Whatever message a client sends, the text that it sends is understood by the peer that gets
  -- it: there it becomes the last message of the list and counts as unread, under the user that
  -- the peer belongs to, with the text that was sent or the file's name, and with the file's
  -- data.
  pub handle_data-stringify :
      (user_id : String) (m : PeerMessage) (app : App)
      → (app' : App) × (handle_data env user_id (env.json.stringify m) app ≡ returned app')
        × (app'.page ≡ app.page)
        × (app'.state.messages.list
            ≡ app.state.messages.list ++ arrived user_id m app.page.now ∷ [])
        × (app'.state.messages.count ≡ app.state.messages.count + 1)
  handle_data-stringify user_id m app =
      let there = arrived user_id m app.page.now in
      let (list, count) = message_add_lem there app refl in
      (
        dispatch env (Action.message_add there) app,
        handle_data-arrived user_id m app,
        add_message-page there app,
        list,
        count,
      )
