-- ===== src/Messaging/Consumer.antt =====
-- messaging/consumer.py: a delivery is applied, retried, or given up. The handler is an
-- argument, which may raise; the payload it reads is part of it. The acknowledgement of a stream
-- entry, which the transport makes outside the database, is an observation of the world.
use autonomous_swe.Prelude.{
  ℕ, ◌+◌, ◌-◌, ◌*◌, ◌^◌, String, Bool, true, false, not, ◌&&◌, List, [], ◌∷◌, ◌++◌, any, ltb, leb,
  ◌==◌, str_eq, if◌then◌else◌,
}
use autonomous_swe.Persistence.Rows.{
  ConsumerReceiptRow, ConsumerDeliveryRow, DeliveryStatus, DeadLetterRow, delivery_consumer, Topic,
  Payload,
}
use autonomous_swe.Persistence.Session.{
  Result, return, raise, Exec, pure, gets, modify, transaction, test◌then◌else◌, ◌>>=◌, ◌>>◌,
}
use autonomous_swe.Messaging.Outbox.{letter_of}

pub data DeliveryOutcome : Type 0 where
  applied duplicate deferred retry dead_lettered : DeliveryOutcome

pub record DeliveryRetryPolicy : Type 0 where
  pub max_attempts : ℕ
  pub base_delay : ℕ
  pub max_delay : ℕ
  pub jitter : Bool

-- `uniform` is the generator's draw between zero and its argument. A time has no greatest value here,
-- so the product does not overflow.
unfoldable pub delay_for : DeliveryRetryPolicy → (ℕ → ℕ) → ℕ → ℕ
delay_for p uniform attempt =
    let candidate = p.base_delay * 2 ^ (attempt - 1) in
    let ceiling = if leb candidate p.max_delay then candidate else p.max_delay in
    if not p.jitter then ceiling else uniform ceiling

pub record DeliveryConsumer : Type 0 where
  pub group : String
  pub consumer : String
  pub retry_policy : DeliveryRetryPolicy

pub record RedisStreamRecord : Type 0 where
  pub stream_id : ℕ
  pub event_id : ℕ
  pub topic : Topic
  pub payload : Payload

unfoldable pub receipt_of : String → ℕ → ConsumerReceiptRow → Bool
receipt_of consumer event_id r = r.event_id == event_id && str_eq r.consumer consumer

abbrev pub received : String → ℕ → List ConsumerReceiptRow → Bool
received consumer event_id receipts = any (receipt_of consumer event_id) receipts

-- `on_conflict_do_nothing`, and whether a row was inserted
unfoldable pub claim_consumer_receipt : String → ℕ → Exec Bool
claim_consumer_receipt consumer event_id = do
  present ← gets (λ w. received consumer event_id w.receipts)
  modify λ t. if present then t else record t {
    receipts = t.receipts ++ record { consumer = consumer; event_id = event_id } ∷ [];
  }
  pure (not present)

abbrev delivery_of : String → ℕ → ConsumerDeliveryRow → Bool
delivery_of consumer event_id d = d.event_id == event_id && str_eq d.consumer consumer

abbrev is_retrying : DeliveryStatus → Bool
is_retrying DeliveryStatus.retrying = true
is_retrying DeliveryStatus.dead_lettered = false

abbrev pub waits : String → ℕ → ℕ → ConsumerDeliveryRow → Bool
waits consumer event_id now d =
    delivery_of consumer event_id d && is_retrying d.status && ltb now d.next_attempt_at

unfoldable pub is_deferred : DeliveryConsumer → ℕ → ℕ → Exec Bool
is_deferred c event_id now = gets (λ w. any (waits c.group event_id now) w.deliveries)

-- The receipt and the handler in one transaction; `true` is a duplicate.
unfoldable pub apply_once : DeliveryConsumer → RedisStreamRecord → Exec Unit → Exec Bool
apply_once c r handler = do
  claimed ← claim_consumer_receipt c.group r.event_id
  test claimed then handler >>= (λ _. pure false) else pure true

-- The attempts of a delivery so far: none, where there is no row.
unfoldable pub attempts_so_far : String → ℕ → List ConsumerDeliveryRow → ℕ
attempts_so_far consumer event_id [] = 0
attempts_so_far consumer event_id (d ∷ ds) =
    if delivery_of consumer event_id d then d.attempts else attempts_so_far consumer event_id ds

-- `on_conflict_do_update`: the new row takes the place of the one with the same two columns.
unfoldable pub upsert_delivery :
    ConsumerDeliveryRow → List ConsumerDeliveryRow → List ConsumerDeliveryRow
upsert_delivery d [] = d ∷ []
upsert_delivery d (e ∷ es) =
    if delivery_of d.consumer d.event_id e
    then record d { topic = e.topic } ∷ es
    else e ∷ upsert_delivery d es

abbrev pub dead_letter_for : DeliveryConsumer → RedisStreamRecord → ℕ → String → ℕ → DeadLetterRow
dead_letter_for c r attempts error now = record {
  event_id = r.event_id;
  consumer = delivery_consumer c.consumer;
  topic = r.topic;
  payload = r.payload;
  attempts = attempts;
  last_error = error;
  created_at = now;
}

unfoldable pub add_dead_letter : DeadLetterRow → List DeadLetterRow → List DeadLetterRow
add_dead_letter l ls = if any (letter_of l.consumer l.event_id) ls then ls else ls ++ l ∷ []

unfoldable pub delivery_after :
    DeliveryConsumer → RedisStreamRecord → (ℕ → ℕ) → String → ℕ → ℕ → Bool → ConsumerDeliveryRow
delivery_after c r uniform error now attempts over = record {
  consumer = c.group;
  event_id = r.event_id;
  topic = r.topic;
  attempts = attempts;
  status = if over then DeliveryStatus.dead_lettered else DeliveryStatus.retrying;
  next_attempt_at = if over then now else now + delay_for c.retry_policy uniform attempts;
  last_error = error;
  updated_at = now;
}

unfoldable pub record_failure : DeliveryConsumer → RedisStreamRecord → (ℕ → ℕ) → String → ℕ → Exec ℕ
record_failure c r uniform error now = transaction (do
  attempts ← gets (λ w. attempts_so_far c.group r.event_id w.deliveries + 1)
  let over = leb c.retry_policy.max_attempts attempts
  modify λ t. record t {
    deliveries = upsert_delivery (delivery_after c r uniform error now attempts over) t.deliveries;
    dead_letters =
        if over
        then add_dead_letter (dead_letter_for c r attempts error now) t.dead_letters
        else t.dead_letters;
  }
  pure attempts)

unfoldable pub acknowledge : RedisStreamRecord → Exec Unit
acknowledge r w = pure tt record w { acknowledged = w.acknowledged ++ r.stream_id ∷ [] }

unfoldable pub fail_delivery :
    DeliveryConsumer → RedisStreamRecord → (ℕ → ℕ) → String → ℕ → Exec DeliveryOutcome
fail_delivery c r uniform error now = do
  attempts ← record_failure c r uniform error now
  test leb c.retry_policy.max_attempts attempts
      then acknowledge r >>= (λ _. pure dead_lettered)
      else pure retry

-- What follows the transaction of the handler; `text` is the text of an exception.
unfoldable pub conclude :
    DeliveryConsumer → RedisStreamRecord → (ℕ → ℕ) → String → ℕ → Result Bool → Exec DeliveryOutcome
unfolding fail_delivery
conclude c r uniform error now (raise e) = fail_delivery c r uniform error now
conclude c r uniform error now (return again) = do
  acknowledge r
  pure (if again then duplicate else applied)

unfoldable pub handle :
    DeliveryConsumer → RedisStreamRecord → Exec Unit → (ℕ → ℕ) → String → ℕ → Exec DeliveryOutcome
handle c r handler uniform error now w =
    let (outcome, v) = transaction (apply_once c r handler) w in
    conclude c r uniform error now outcome v

unfoldable pub process :
    DeliveryConsumer → RedisStreamRecord → Exec Unit → (ℕ → ℕ) → String → ℕ → Exec DeliveryOutcome
unfolding conclude
process c r handler uniform error now = do
  waiting ← transaction (is_deferred c r.event_id now)
  test waiting then pure deferred else handle c r handler uniform error now
