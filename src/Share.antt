-- ===== src/Share.antt =====
-- FerrumClient/src/sharedServiceManager.ts: the manager that publishes a local service itself.
pub mod ProxyHeader
pub mod Manager
pub mod Handlers
pub mod Lifecycle
