-- ===== src/Messaging/Exhaustion.antt =====
-- `process`, messaging/consumer.py, of an event whose handler keeps failing.
use autonomous_swe.Prelude.{ℕ, String, ◌≡◌, Bool, true, false, not, ◌||◌, List, [], ◌∷◌, leb}
use autonomous_swe.Persistence.Session.{World, Result, return, raise, Exec}
use autonomous_swe.Messaging.Consumer.{
  DeliveryConsumer, RedisStreamRecord, received, attempts_so_far, handle,
}
use autonomous_swe.Messaging.Failures.{dead}

-- One delivery that is not deferred: the draw of its delay, the text of its error, and its time.
pub record Delivery : Type 0 where
  pub uniform : ℕ → ℕ
  pub error : String
  pub now : ℕ

abbrev pub deliver :
    DeliveryConsumer → RedisStreamRecord → Exec Unit → List Delivery → World → World
unfolding handle
deliver c r handler [] w = w
deliver c r handler (d ∷ ds) w =
    deliver c r handler ds (handle c r handler d.uniform d.error d.now w).1

abbrev pub raises : {A : Type 0} → Result A → Bool
raises (return a) = false
raises (raise e) = true

module _ (c : DeliveryConsumer) (r : RedisStreamRecord) (handler : Exec Unit)
    (fails : (w : World) → raises (handler w).0 ≡ true) where
  abbrev attempts : World → ℕ
  attempts w = attempts_so_far c.group r.event_id w.deliveries

  abbrev seen : World → Bool
  seen w = received c.group r.event_id w.receipts

  -- The count is kept, and a count that reached the maximum has its dead letter.
  record Counted (n : ℕ) (v : World) : Type 0 where
    count : attempts v ≡ n
    letter : (not (leb c.retry_policy.max_attempts n) || dead c r v) ≡ true
    receiptless : seen v ≡ false

  abbrev Failed : World → Result Bool × World → Type 0
  Failed w o = (raises o.0 ≡ true) × (o.1.tables ≡ w.tables)
