-- ===== src/Messaging.antt =====
-- messaging/outbox.py and messaging/consumer.py: the publisher of the outbox, and its consumers.
pub mod Outbox
pub mod Rows
pub mod Backoff
pub mod Fencing
pub mod Consumer
pub mod Delivery
pub mod Failures
pub mod Exhaustion
