-- ===== src/Events.antt =====
-- agent/events and core/alerts.py: what comes in from the message bus, and what goes out.
pub mod Subscriber
pub mod Alerts
mod Examples
