-- ===== src/Module.antt =====
-- source/_generic: one opened WCLAP, as the bridge keeps it.
pub mod Failure
pub mod Threads
pub mod Register
pub mod Opening
pub mod Closing
pub mod PortTypes
pub mod HostMethods
pub mod HostCalls
pub mod Routing
mod Examples
