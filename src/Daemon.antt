-- ===== src/Daemon.antt =====
-- stacks/gpt-webai-pro/src/daemon/: the process in a slot's container that works the browser.
pub mod Act
pub mod Session
pub mod Reconcile
pub mod Chips
pub mod Composer
pub mod Sending
pub mod Stays
pub mod Returns
pub mod Wire
pub mod Poll
pub mod Dispatch
pub mod SendCache
