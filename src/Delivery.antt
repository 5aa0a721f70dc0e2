-- ===== src/Delivery.antt =====
-- The send attempts of a request: stacks/gpt-webai-pro/src/supervisor/run.ts, from
-- `armSendAttempt` to `applyReconcileResult`.
pub mod Anchor
pub mod Transitions
pub mod Arming
pub mod AtMostOnce
pub mod Machine
pub mod Refinement
pub mod Resolution
pub mod Settlement
pub mod Calls
pub mod Untouched
pub mod Exclusive
pub mod Progress
pub mod Settled
pub mod Reconciliation
