-- ===== src/Clients.antt =====
-- agent/clients: calls of the other services, with retries.
pub mod Payloads
pub mod Reconcile
pub mod Retry
pub mod Base
mod Examples
