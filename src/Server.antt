-- ===== src/Server.antt =====
-- server: the handlers of the service, and the streams that they answer on.
pub mod Stream
pub mod Source
pub mod Navigate
pub mod Sessions
pub mod Assist
pub mod Forges
pub mod OpenReview
pub mod OpenSession
pub mod System
