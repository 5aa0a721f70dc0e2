-- ===== src/Slots.antt =====
-- stacks/gpt-webai-pro/src/supervisor/slots.ts: which account sends a request, and what is known of
-- the accounts.
pub mod Usage
pub mod Claim
pub mod Eligible
pub mod Selection
pub mod Window
pub mod Capacity
