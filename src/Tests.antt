-- ===== src/Tests.antt =====
-- Concrete inputs of the theorems, and runs of the code on them.
pub mod Samples
mod Delivery
mod Slots
mod Supervisor
mod Send
mod Daemon
mod Poll
mod RpcClient
mod Dispatch
mod Docker
mod Recover
