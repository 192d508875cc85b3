-- ===== src/Messaging/Backoff.antt =====
-- `_mark_failed`, messaging/outbox.py: the delay before an event is tried again.
