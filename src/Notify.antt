-- ===== src/Notify.antt =====
-- internal/notify: which notifications an alert sends, and when they are tried again.
pub mod Message
pub mod Repeat
pub mod Repeats
pub mod Maintenance
pub mod Delivery
