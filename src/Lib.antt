-- ===== src/Lib.antt =====
-- Peer Calls: the browser client (src/client), which joins a room over a socket to the server, makes
-- a simple-peer connection to every other user of the room, and keeps its state in a redux store.
--
-- The parts and their files:
--   Actions        the actions with their payloads (src/client/actions, src/client/async/action.ts)
--   Page           the browser page as far as the client uses it: tracks, handlers, object URLs, the
--                  variable of reducers/peers.ts, the clock, and the calls made on peers and socket
--   Lodash         what is relied on of lodash's omit, forEach, keyBy and uniqueId
--   Reducers       one module for each file of src/client/reducers: a reducer is a function of its
--                  slice and an action, and of the page where the source's reducer changes the page.
--                  What is proved of a reducer stands in the modules below it
--   Store          the combined state and the dispatch of an action (reducers/index.ts, store.ts)
--   Store.Dispatch what a dispatch does to each slice; Store.Refinement has the store as what is seen of
--                  it, without the order of the users and the URLs, and what each action does to that
--   SocketClient   the connection to the server, which is opened again (src/client/ws/index.ts), as a
--                  step relation on the client and its WebSockets
--   Client         what the client does when something happens, as functions on App, the state with
--                  the page: Notify (actions/NotifyActions.ts), PeerHandler and Chat
--                  (actions/PeerActions.ts), SocketHandler (actions/SocketActions.ts), Calls
--                  (actions/CallActions.ts with handshake and async/middleware.ts), Connecting (init
--                  of actions/CallActions.ts: the SocketClient and a session of Calls that hears what
--                  it emits), Capture (actions/MediaActions.ts), Middleware (async/middleware.ts for
--                  any store; its Kinds and Guards are constants.ts and async/action.ts), Address
--                  (window.ts and socket.ts), Events (the events of peers and of the server as one
--                  kind of event). Joining, Leaving, Sharing, Silence, Messaging, Destroying and the
--                  modules below Calls, Chat, Connecting, Middleware and Events are about their
--                  behaviour; Moves has every handler as a sequence of dispatches, notifications and
--                  calls on the page, and what all such sequences keep
--   System         the whole client as one step relation: the SocketClient, the session that hears it,
--                  the form, the connections, the tracks, the user and the browser; what holds in
--                  every state that it reaches from the page's load on
--   Components     the React components (src/client/components): their states and handlers, and what
--                  render returns, as a tree of elements (Html) with the handlers that each element
--                  has. Application is the whole page; Media.Submitting is the form's submit
--   TurnCheck      the check of a TURN server (src/client/debug/index.ts)
--   SimplePage     the page for trying out a connection (src/client/index-simple.tsx)
--   Prelude        shared names, tests on numbers and texts, lists, dictionaries in insertion order,
--                  and the split of a text
--   Tests          runs on concrete inputs
--
-- How the source is read. Objects of the browser and of simple-peer are numbers, the same number for
-- the same object. A JavaScript object that serves as a map is a list of keys and values in the order
-- of insertion; the server's ids are not numerals and not names of Object.prototype, for which the
-- order or the lookup would differ. Reducers and handlers are pure functions with the page passed
-- through; a handler that may throw returns a Handled, which says what it had done by then. The
-- events of a peer, of a track, of the socket and of timers are separate steps, so an event comes
-- between any two others. A promise is a flag that is set once, and what waits for it runs at the end
-- of the step that settles it. Lists are run through by structural recursion, so no fuel is needed.
-- Env holds what is not in the repository: lodash, redux's combineReducers, JSON of the messages
-- between peers, when simple-peer's send and addTrack return, the decimal text of a number, and the
-- user's id that the page was loaded with, with their documented behaviour as laws; Tests.Environment
-- has an instance. ConstraintJson is the same for JSON of the constraints of the form, and Payloads
-- for what the server sends; Tests.Pages and Tests.Whole have instances. The theorems on System take
-- it that the ids in the server's messages are plain keys and not "_me_".
-- The listeners of the socket go by an event's name, which may be the type of a server's message.
--
-- Not modelled: what React does with the elements, the text that the package classnames makes, the
-- elements of react-transition-group, scrolling and focus; what the browser does in getUserMedia,
-- getDisplayMedia, enumerateDevices, play and FileReader (what they answer is an argument); the debug
-- output, the entry point index.tsx, redux's refusal of a dispatch inside a reducer, exceptions of
-- simple-peer's methods other than send and, in handleConnect, addTrack, the dollar patterns of
-- String.replace in the arguments of a notification, and the server, which is in Go.
pub mod Prelude
pub mod Actions
pub mod Page
pub mod Lodash
pub mod Reducers
pub mod Store
pub mod SocketClient
pub mod Client
pub mod System
pub mod TurnCheck
pub mod SimplePage
pub mod Components
mod Tests
