-- ===== src/Messaging/Delivery.antt =====
-- `process`, messaging/consumer.py, and the receipts of a group.
use autonomous_swe.Prelude.{
  ℕ, String, ◌≡◌, refl, Bool, true, false, ◌⊎◌, List, [], ◌∷◌, ◌++◌, any, str_eq, eq_iff, ==_refl,
  Bool-cases, inl, inr, if◌then◌else◌, arith,
}
use autonomous_swe.Persistence.Rows.{ConsumerReceiptRow}
use autonomous_swe.Persistence.Session.{World, Exec, Result, return, transaction, ◌>>=◌}
use autonomous_swe.Persistence.Post.{
  Post, done, failed, Post-always, Post-weaken, Post-bind, Post-pure, Post-if, Post-transaction,
}
use autonomous_swe.Messaging.Consumer.{
  receipt_of, DeliveryOutcome, DeliveryConsumer, RedisStreamRecord, applied, duplicate, deferred,
  received, claim_consumer_receipt, is_deferred, apply_once, acknowledge, conclude, handle, process,
  waits,
}

-- A receipt turns the handler away.
apply_once-received :
    (c : DeliveryConsumer) (r : RedisStreamRecord) (handler : Exec Unit) (w : World)
    → received c.group r.event_id w.receipts ≡ true
    → transaction (apply_once c r handler) w ≡ (return true, w)
unfolding apply_once claim_consumer_receipt transaction ◌>>=◌
apply_once-received c r handler w h = rw h refl

handle-received :
    (c : DeliveryConsumer) (r : RedisStreamRecord) (handler : Exec Unit) (uniform : ℕ → ℕ)
    (error : String) (now : ℕ) (w : World)
    → received c.group r.event_id w.receipts ≡ true
    → ((handle c r handler uniform error now w).0 ≡ return duplicate)
      × ((handle c r handler uniform error now w).1.tables ≡ w.tables)
unfolding handle conclude acknowledge ◌>>=◌
handle-received c r handler uniform error now w h =
    rw (apply_once-received c r handler w h) (refl, refl)

-- An event that its group has a receipt of is not applied again: `process` answers DUPLICATE, or
-- DEFERRED while a retry of it waits, and the tables stay as they are, whatever the handler does.
pub process-received :
    (c : DeliveryConsumer) (r : RedisStreamRecord) (handler : Exec Unit) (uniform : ℕ → ℕ)
    (error : String) (now : ℕ) (w : World)
    → received c.group r.event_id w.receipts ≡ true
    → ((process c r handler uniform error now w).0
        ≡ return (if any (waits c.group r.event_id now) w.deliveries then deferred else duplicate))
      × ((process c r handler uniform error now w).1.tables ≡ w.tables)
unfolding process is_deferred handle conclude acknowledge transaction ◌>>=◌
process-received c r handler uniform error now w h =
    elim (Bool-cases (any (waits c.group r.event_id now) w.deliveries)) [
      | inl e ↦ rw e (refl, refl)
      | inr e ↦ rw e (handle-received c r handler uniform error now w h)
    ]

str_refl : (s : String) → str_eq s s ≡ true
str_refl s = (eq_iff s s).1 refl

-- A receipt that is added is there.
receipt_added :
    (group : String) (event_id : ℕ) (rs : List ConsumerReceiptRow)
    → received group event_id (rs ++ record { consumer = group; event_id = event_id } ∷ []) ≡ true
unfolding receipt_of
receipt_added group event_id [] = ground (arith, ==_refl event_id, str_refl group)
receipt_added group event_id (x ∷ rs) = grind (arith, receipt_added group event_id rs)

-- What a handler must leave alone: the receipt of its event.
abbrev pub KeepsReceipt : DeliveryConsumer → RedisStreamRecord → Exec Unit → Type 0
KeepsReceipt c r handler =
    (w : World)
    → received c.group r.event_id w.receipts ≡ true
    → Post (λ _ v. received c.group r.event_id v.receipts ≡ true) (handler w)

claim_consumer_receipt-receipt :
    (group : String) (event_id : ℕ) (w : World)
    → Post
        (λ _ v. received group event_id v.receipts ≡ true)
        (claim_consumer_receipt group event_id w)
unfolding claim_consumer_receipt ◌>>=◌
claim_consumer_receipt-receipt group event_id w =
    elim (Bool-cases (received group event_id w.receipts)) [
      | inl e ↦ rw e (done e)
      | inr e ↦ rw e (done (receipt_added group event_id w.receipts))
    ]

apply_once-receipt :
    (c : DeliveryConsumer) (r : RedisStreamRecord) (handler : Exec Unit) (w : World)
    → KeepsReceipt c r handler
    → Post (λ _ v. received c.group r.event_id v.receipts ≡ true) (apply_once c r handler w)
unfolding apply_once
apply_once-receipt c r handler w keeps =
    Post-bind _ _ w (claim_consumer_receipt-receipt c.group r.event_id w) λ fresh v h.
      Post-if _ _ _ v (λ _. Post-bind _ _ v (keeps v h) λ _ u j. Post-pure _ u j)
        (λ _. Post-pure _ v h)

abbrev pub settled_outcome : DeliveryOutcome → Bool
settled_outcome applied = true
settled_outcome duplicate = true
settled_outcome _ = false

-- The event has its receipt where the outcome says that it was applied.
abbrev Receipted : DeliveryConsumer → RedisStreamRecord → DeliveryOutcome → World → Type 0
Receipted c r o v = settled_outcome o ≡ true → received c.group r.event_id v.receipts ≡ true

conclude-Receipted :
    (c : DeliveryConsumer) (r : RedisStreamRecord) (uniform : ℕ → ℕ) (error : String) (now : ℕ)
    {o : Result Bool × World}
    → Post (λ _ v. received c.group r.event_id v.receipts ≡ true) o
    → Post (Receipted c r) (conclude c r uniform error now o.0 o.1)
unfolding conclude acknowledge
conclude-Receipted c r uniform error now (done h) = unfold ◌>>=◌ in done (λ _. h)
conclude-Receipted c r uniform error now (failed {w}) =
    Post-bind {R = λ _ _. Unit} _ _ w (Post-always _ λ _ _. tt) λ n v _.
      Post-if _ _ _ v
        (λ _.
          Post-bind {R = λ _ _. Unit} _ _ v (Post-always _ λ _ _. tt)
            λ _ u _. Post-pure _ u λ e. ground arith)
        (λ _. Post-pure _ v λ e. ground arith)

process-Receipted :
    (c : DeliveryConsumer) (r : RedisStreamRecord) (handler : Exec Unit) (uniform : ℕ → ℕ)
    (error : String) (now : ℕ) (w : World)
    → KeepsReceipt c r handler
    → Post (Receipted c r) (process c r handler uniform error now w)
unfolding process handle
process-Receipted c r handler uniform error now w keeps =
    Post-bind {R = λ _ _. Unit} _ _ w (Post-always _ λ _ _. tt) λ waiting v _.
      Post-if _ _ _ v (λ _. Post-pure _ v λ e. ground arith)
        λ _.
          conclude-Receipted c r uniform error now
            (Post-transaction _ v (apply_once-receipt c r handler v keeps))

-- After an event was applied, or found to be a duplicate, no later delivery of it changes the
-- tables, at any time and with any handler: it is applied at most once. The first handler keeps
-- the receipt of its event.
pub process-once :
    (c : DeliveryConsumer) (r : RedisStreamRecord) (handler again : Exec Unit) (uniform : ℕ → ℕ)
    (error : String) (now later : ℕ) (w : World)
    → KeepsReceipt c r handler
    → Post
        (λ o v.
          (settled_outcome o ≡ false)
          ⊎ ((process c r again uniform error later v).1.tables ≡ v.tables))
        (process c r handler uniform error now w)
process-once c r handler again uniform error now later w keeps =
    Post-weaken (process-Receipted c r handler uniform error now w keeps) λ o v h.
      elim (Bool-cases (settled_outcome o)) [
        | inl e ↦ inr (process-received c r again uniform error later v (h e)).1
        | inr e ↦ inl e
      ]
