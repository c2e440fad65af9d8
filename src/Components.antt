-- ===== src/Components.antt =====
-- What the React components compute (src/client/components).
pub mod Html
pub mod Simple
pub mod Chat
pub mod Media
pub mod Application
pub mod Videos
pub mod Toolbar
pub mod Input
pub mod Notifications
