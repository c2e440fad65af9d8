-- ===== src/Client.antt =====
-- src/client/actions: what the client does when something happens, as functions of the client's
-- state and page.
pub mod Notify
pub mod PeerHandler
pub mod SocketHandler
pub mod Chat
pub mod Calls
pub mod Connecting
pub mod Capture
pub mod Address
pub mod Middleware
pub mod Joining
pub mod Leaving
pub mod Sharing
pub mod Silence
pub mod Destroying
pub mod Messaging
pub mod Events
pub mod Moves
