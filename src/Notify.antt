-- ===== src/Notify.antt =====
-- internal/core/notify: the asynchronous dispatcher of notifications and what the log driver shows.
pub mod Dispatcher
