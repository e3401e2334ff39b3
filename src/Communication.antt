-- ===== src/Communication.antt =====
-- The package mac-central/src/communication.
pub mod RateLimiter
pub mod DeviceSession
pub mod ModelActions
pub mod GrpcServer
