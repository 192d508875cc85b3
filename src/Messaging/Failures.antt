-- ===== src/Messaging/Failures.antt =====
-- `_record_failure`, messaging/consumer.py.
use autonomous_swe.Prelude.{Bool, any}
use autonomous_swe.Persistence.Rows.{delivery_consumer}
use autonomous_swe.Persistence.Session.{World}
use autonomous_swe.Messaging.Outbox.{letter_of}
use autonomous_swe.Messaging.Consumer.{DeliveryConsumer, RedisStreamRecord}

-- The dead letter of a delivery stands.
abbrev pub dead : DeliveryConsumer → RedisStreamRecord → World → Bool
dead c r v = any (letter_of (delivery_consumer c.consumer) r.event_id) v.dead_letters
