-- ===== src/Delivery.antt =====
-- hermes_peer/delivery.py: the boundary around peer text, and its delivery to the host.
pub mod Boundary
pub mod Escape
pub mod Erase
pub mod Deliver
pub mod Once
pub mod Names
pub mod Examples
