-- ===== src/Messaging/Outbox.antt =====
-- messaging/outbox.py: the publisher. `last_error` is the text of the exception, whole.
use autonomous_swe.Prelude.{
  ℕ, ◌+◌, ◌-◌, ◌*◌, ◌^◌, min, String, Bool, true, false, not, ◌&&◌, ◌||◌, Option, none, some, List,
  [], ◌∷◌, ◌++◌, Table, put, any, where_true, sort_by, take, ltb, leb, ◌==◌, str_eq, is_some,
  if◌then◌else◌,
}
use autonomous_swe.Persistence.Rows.{
  OutboxRow, DeadLetterRow, DeadLetterConsumer, outbox_publisher, delivery_consumer, Topic, Payload,
}
use autonomous_swe.Persistence.Session.{
  Exec, pure, throw, overflow_error, gets, modify, transaction, for_each, uuid4, test◌then◌else◌,
  ◌>>=◌, ◌>>◌,
}

pub record OutboxPublisher : Type 0 where
  pub publisher_id : String
  pub claim_ttl : ℕ
  pub retry_base : ℕ
  pub retry_max : ℕ
  pub max_attempts : ℕ

pub record ClaimedEvent : Type 0 where
  pub event_id : ℕ
  pub topic : Topic
  pub payload : Payload
  pub attempt : ℕ
  pub claim_token : ℕ

abbrev lapsed_claim : ℕ → Option ℕ → Bool
lapsed_claim now none = true
lapsed_claim now (some until) = leb until now

-- The `where` of `_claim`.
unfoldable pub claimable : ℕ → OutboxRow → Bool
claimable now row =
    not (is_some row.published_at)
    && not (is_some row.dead_lettered_at)
    && leb row.next_attempt_at now
    && lapsed_claim now row.claimed_until

-- `ORDER BY created_at, event_id`
abbrev enqueued_before : ℕ × OutboxRow → ℕ × OutboxRow → Bool
enqueued_before (i, a) (j, b) =
    ltb a.created_at b.created_at || (a.created_at == b.created_at && leb i j)

unfoldable pub claimed_row : OutboxPublisher → ℕ → ℕ → OutboxRow → OutboxRow
claimed_row p now token row = record row {
  attempts = row.attempts + 1;
  publisher = some p.publisher_id;
  claim_token = some token;
  claimed_until = some (now + p.claim_ttl);
}

unfoldable pub claim_row : OutboxPublisher → ℕ → ℕ × OutboxRow → Exec ClaimedEvent
claim_row p now (event_id, row) = do
  token ← uuid4
  modify (λ t. record t { outbox = put event_id (claimed_row p now token row) t.outbox })
  pure record {
    event_id = event_id;
    topic = row.topic;
    payload = row.payload;
    attempt = row.attempts + 1;
    claim_token = token;
  }

unfoldable pub select_claimable : ℕ → ℕ → (ℕ → Bool) → Table OutboxRow → Table OutboxRow
select_claimable limit now locked outbox =
    take limit (
      sort_by enqueued_before (where_true (λ (i, row). claimable now row && not (locked i)) outbox))

unfoldable pub claim_rows : OutboxPublisher → ℕ → ℕ → (ℕ → Bool) → Exec (List ClaimedEvent)
claim_rows p limit now locked = do
  rows ← gets (λ w. select_claimable limit now locked w.outbox)
  for_each rows (claim_row p now)

unfoldable pub claim : OutboxPublisher → ℕ → ℕ → (ℕ → Bool) → Exec (List ClaimedEvent)
claim p limit now locked =
    test ltb limit 1 then pure [] else transaction (claim_rows p limit now locked)

-- `update(OutboxRow).where(…).values(…)`, and whether a row was updated
unfoldable pub update_where :
    (ℕ × OutboxRow → Bool) → (OutboxRow → OutboxRow) → Table OutboxRow → Table OutboxRow
update_where wanted change [] = []
update_where wanted change ((i, row) ∷ rest) =
    (i, if wanted (i, row) then change row else row) ∷ update_where wanted change rest

unfoldable pub update_outbox : (ℕ × OutboxRow → Bool) → (OutboxRow → OutboxRow) → Exec Bool
update_outbox wanted change = do
  matched ← gets (λ w. any wanted w.outbox)
  modify (λ t. record t { outbox = update_where wanted change t.outbox })
  pure matched

abbrev pub token_is : ℕ → Option ℕ → Bool
token_is token none = false
token_is token (some t) = t == token

-- The row under the claim of an event.
unfoldable pub held_row : ClaimedEvent → ℕ × OutboxRow → Bool
held_row event (i, row) = i == event.event_id && token_is event.claim_token row.claim_token

unfoldable pub published_row : ℕ → OutboxRow → OutboxRow
published_row now row = record row {
  published_at = some now;
  last_error = none;
  publisher = none;
  claim_token = none;
  claimed_until = none;
}

abbrev pub unpublished_row : ClaimedEvent → ℕ × OutboxRow → Bool
unpublished_row event (i, row) = held_row event (i, row) && not (is_some row.published_at)

unfoldable pub mark_published : ClaimedEvent → ℕ → Exec Bool
mark_published event now = transaction (update_outbox (unpublished_row event) (published_row now))

-- `timedelta.max`, in microseconds: a product that is greater raises `OverflowError`.
abbrev pub timedelta_max : ℕ
timedelta_max = 86_399_999_999_999_999_999

unfoldable pub retry_delay : OutboxPublisher → ℕ → Option ℕ
retry_delay p attempt =
    if leb (p.retry_base * 2 ^ (attempt - 1)) timedelta_max
    then some (min (p.retry_base * 2 ^ (attempt - 1)) p.retry_max)
    else none

unfoldable pub failed_row : ℕ → String → OutboxRow → OutboxRow
failed_row retry_at error row = record row {
  next_attempt_at = retry_at;
  last_error = some error;
  publisher = none;
  claim_token = none;
  claimed_until = none;
}

unfoldable pub dead_row : ℕ → String → OutboxRow → OutboxRow
dead_row now error row = record row {
  dead_lettered_at = some now;
  last_error = some error;
  publisher = none;
  claim_token = none;
  claimed_until = none;
}

-- Equality of two values of the column `consumer`.
abbrev same_consumer : DeadLetterConsumer → DeadLetterConsumer → Bool
same_consumer (outbox_publisher a) (outbox_publisher b) = str_eq a b
same_consumer (delivery_consumer a) (delivery_consumer b) = str_eq a b
same_consumer _ _ = false

abbrev pub letter_of : DeadLetterConsumer → ℕ → DeadLetterRow → Bool
letter_of consumer event_id letter =
    letter.event_id == event_id && same_consumer letter.consumer consumer

-- `on_conflict_do_nothing`
unfoldable pub record_dead_letter : OutboxPublisher → ClaimedEvent → String → ℕ → Exec Unit
record_dead_letter p event error now = modify λ t.
    if any (letter_of (outbox_publisher p.publisher_id) event.event_id) t.dead_letters
    then t
    else record t {
      dead_letters =
          t.dead_letters
          ++ record {
            event_id = event.event_id;
            consumer = outbox_publisher p.publisher_id;
            topic = event.topic;
            payload = event.payload;
            attempts = event.attempt;
            last_error = error;
            created_at = now;
          }
            ∷ [];
    }

unfoldable pub dead_letter_body : OutboxPublisher → ClaimedEvent → String → ℕ → Exec Unit
dead_letter_body p event error now = do
  updated ← update_outbox (held_row event) (dead_row now error)
  record_dead_letter p event error now

unfoldable pub dead_letter : OutboxPublisher → ClaimedEvent → String → ℕ → Exec Unit
unfolding dead_letter_body
dead_letter p event error now = transaction (dead_letter_body p event error now)

unfoldable pub give_up_on : OutboxPublisher → ClaimedEvent → String → ℕ → Exec Bool
give_up_on p event error now = do dead_letter p event error now; pure false

unfoldable pub schedule_retry : ClaimedEvent → String → ℕ → Option ℕ → Exec Bool
schedule_retry event error now none = throw overflow_error
schedule_retry event error now (some delay) =
    transaction (update_outbox (held_row event) (failed_row (now + delay) error))

unfoldable pub mark_failed : OutboxPublisher → ClaimedEvent → String → ℕ → Exec Bool
unfolding give_up_on retry_delay schedule_retry
mark_failed p event error now =
    test leb p.max_attempts event.attempt
    then give_up_on p event error now
    else schedule_retry event error now (retry_delay p event.attempt)

-- What the transport did: `none` if it published the event, or the text of what it raised.
unfoldable pub after_transport : OutboxPublisher → ℕ → ClaimedEvent → Option String → Exec Bool
after_transport p now event none = mark_published event now
after_transport p now event (some error) = mark_failed p event error now >>= λ _. pure false

unfoldable pub publish_one :
    OutboxPublisher → (ClaimedEvent → Option String) → ℕ → ClaimedEvent → Exec Bool
unfolding after_transport
publish_one p transport now event = after_transport p now event (transport event)

abbrev count_true : List Bool → ℕ
count_true [] = 0
count_true (b ∷ bs) = (if b then 1 else 0) + count_true bs

unfoldable pub publish_batch :
    OutboxPublisher → (ClaimedEvent → Option String) → ℕ → ℕ → (ℕ → Bool) → Exec ℕ
publish_batch p transport limit now locked = do
  claimed ← claim p limit now locked
  published ← for_each claimed (publish_one p transport now)
  pure (count_true published)

unfoldable pub requeued_row : ℕ → OutboxRow → OutboxRow
requeued_row now row = record row {
  published_at = none;
  next_attempt_at = now;
  publisher = none;
  claim_token = none;
  claimed_until = none;
}

unfoldable pub requeue : ℕ → ℕ → Exec Bool
requeue event_id now = transaction (update_outbox (λ (i, row). i == event_id) (requeued_row now))
