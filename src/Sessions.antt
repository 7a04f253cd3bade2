-- ===== src/Sessions.antt =====
-- hermes_peer/sessions.py: what the session manager does with an inbound message.
pub mod Inbound
pub mod Answers
pub mod Once
pub mod Refused
pub mod Release
pub mod Examples
