-- ===== src/Database.antt =====
-- stacks/gpt-webai-pro/src/supervisor/db.ts: `GwpDatabase`. `Store` has the tables and the
-- transactions, the other children one table's methods each; `Laws` has what is proved of them.
pub mod Store
pub mod Relates
pub mod Requests
pub mod Attempts
pub mod Slots
pub mod Sync
pub mod Usage
pub mod Images
