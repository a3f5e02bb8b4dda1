-- ===== src/Engine.antt =====
-- XmppEngineImpl and XmppLoginTask: the XMPP session.
pub mod Names
pub mod Types
pub mod Internal
pub mod Login
pub mod Session
pub mod Iq
pub mod Input
pub mod Reach
pub mod Stream
