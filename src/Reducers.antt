-- ===== src/Reducers.antt =====
-- src/client/reducers: one module for each slice of the store's state.
pub mod Streams
pub mod Peers
pub mod Media
pub mod Messages
pub mod Notifications
pub mod Nicknames
pub mod WindowStates
