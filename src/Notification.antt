-- ===== src/Notification.antt =====
-- internal/notification: the hub that hands the events of a channel to its subscribers, and what
-- feeds and reads it.
pub mod Channels
pub mod Hub
mod Tests
