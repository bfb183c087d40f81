-- ===== src/Instance.antt =====
-- source/wclap-instance-wasmtime: the runtime behind the bridge.
pub mod Values
pub mod Group
pub mod Paths
pub mod Scan
pub mod Impl
pub mod Setup
pub mod Memory
pub mod Call
pub mod Epochs
pub mod Init
mod Examples
