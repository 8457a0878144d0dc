-- ===== src/Relay.antt =====
-- FerrumClient/src/relayShareClient.ts: the client that publishes a local service by a relay.
pub mod Socket
pub mod Frame
pub mod Client
pub mod Commands
