-- ===== src/Supervisor.antt =====
-- stacks/gpt-webai-pro/src/supervisor/run.ts: `Supervisor`, the process that takes a request from
-- staged to its end.
pub mod RpcClient
pub mod Docker
pub mod World
pub mod Outside
pub mod Failing
pub mod Send
pub mod Recover
pub mod Settle
pub mod Waiting
pub mod OwnerLock
pub mod Report
pub mod Config
