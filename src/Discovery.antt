-- ===== src/Discovery.antt =====
-- agent_peer/discovery.py: which peers are live, and which one a target means.
pub mod Records
pub mod Probe
pub mod Examples
pub mod Cache
pub mod Live
pub mod Repair
pub mod Repairs
pub mod Resolution
pub mod Resolve
pub mod Listing
pub mod Challenge
