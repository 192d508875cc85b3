-- ===== src/Messaging/Rows.antt =====
-- messaging/outbox.py: the rows of the outbox over a batch.
use autonomous_swe.Prelude.{
  ℕ, String, ◌≡◌, Bool, true, not, ◌&&◌, ◌||◌, Option, none, some, [], ◌∷◌, Table, put, is_some,
  AllTrue, where_true-AllTrue, sort_by-AllTrue, take-AllTrue, any, Bool-cases, inl, inr, arith,
  ◌==◌,
}
use autonomous_swe.Persistence.Rows.{outbox_publisher, OutboxRow}
use autonomous_swe.Persistence.Session.{Tables, World, uuid4, pure, throw, for_each, ◌>>=◌}
use autonomous_swe.Persistence.Post.{
  Post, done, Post-pure, Post-gets, Post-bind, transaction_keeps, keeps_bind, keeps_test,
  keeps_for_each,
}
use autonomous_swe.Messaging.Outbox.{
  OutboxPublisher, ClaimedEvent, claimable, claimed_row, claim_row, select_claimable, claim_rows,
  claim, update_where, update_outbox, held_row, published_row, mark_published, failed_row, dead_row,
  record_dead_letter, dead_letter_body, dead_letter, give_up_on, retry_delay, schedule_retry,
  mark_failed, after_transport, publish_one, publish_batch, letter_of,
}

-- A row is claimed only while it is neither published nor dead, and it is never both of these.
abbrev pub orderly : ℕ × OutboxRow → Bool
orderly (i, row) =
    (not (is_some row.claim_token)
      || (not (is_some row.published_at) && not (is_some row.dead_lettered_at)))
    && not (is_some row.published_at && is_some row.dead_lettered_at)

abbrev pub Orderly : Tables → Type 0
Orderly t = AllTrue orderly t.outbox

put-AllTrue :
    (k : ℕ) (row : OutboxRow) (t : Table OutboxRow)
    → AllTrue orderly t
    → orderly (k, row) ≡ true
    → AllTrue orderly (put k row t)
unfolding put
put-AllTrue k row [] h e = (e, tt)
put-AllTrue k row ((i, r) ∷ rest) h e = elim (Bool-cases (i == k)) [
  | inl same ↦ rw same (e, h.1)
  | inr other ↦ rw other (h.0, put-AllTrue k row rest h.1 e)
]

update_where-AllTrue :
    (wanted : ℕ × OutboxRow → Bool) (change : OutboxRow → OutboxRow) (t : Table OutboxRow)
    → ((i : ℕ) (row : OutboxRow)
        → wanted (i, row) ≡ true
        → orderly (i, row) ≡ true
        → orderly (i, change row) ≡ true)
    → AllTrue orderly t
    → AllTrue orderly (update_where wanted change t)
unfolding update_where
update_where-AllTrue wanted change [] keep h = tt
update_where-AllTrue wanted change ((i, row) ∷ rest) keep h = elim (Bool-cases (wanted (i, row))) [
  | inl e ↦ rw e (keep i row e h.0, update_where-AllTrue wanted change rest keep h.1)
  | inr e ↦ rw e (h.0, update_where-AllTrue wanted change rest keep h.1)
]

update_outbox-Orderly :
    (wanted : ℕ × OutboxRow → Bool) (change : OutboxRow → OutboxRow) (w : World)
    → ((i : ℕ) (row : OutboxRow)
        → wanted (i, row) ≡ true
        → orderly (i, row) ≡ true
        → orderly (i, change row) ≡ true)
    → Orderly w.tables
    → Post (λ _ v. Orderly v.tables) (update_outbox wanted change w)
unfolding update_outbox ◌>>=◌
update_outbox-Orderly wanted change w keep h =
    done (update_where-AllTrue wanted change w.outbox keep h)

abbrev open_row : ℕ × OutboxRow → Bool
open_row (i, row) = not (is_some row.published_at) && not (is_some row.dead_lettered_at)

claim_row-Orderly :
    (p : OutboxPublisher) (now i : ℕ) (row : OutboxRow) (w : World)
    → open_row (i, row) ≡ true
    → Orderly w.tables
    → Post (λ _ v. Orderly v.tables) (claim_row p now (i, row) w)
unfolding claim_row claimed_row uuid4 ◌>>=◌
claim_row-Orderly p now i row w g h = done (put-AllTrue i _ w.outbox h (ground (arith, g)))

claim_each-Orderly :
    (p : OutboxPublisher) (now : ℕ) (rows : Table OutboxRow) (w : World)
    → AllTrue open_row rows
    → Orderly w.tables
    → Post (λ _ v. Orderly v.tables) (for_each rows (claim_row p now) w)
unfolding for_each
claim_each-Orderly p now [] w g h = Post-pure _ w h
claim_each-Orderly p now ((i, row) ∷ rest) w g h =
    Post-bind _ _ w (claim_row-Orderly p now i row w g.0 h)
      λ _ v s. Post-bind _ _ v (claim_each-Orderly p now rest v g.1 s) λ _ u j. Post-pure _ u j

select_claimable-open :
    (limit now : ℕ) (locked : ℕ → Bool) (t : Table OutboxRow)
    → AllTrue open_row (select_claimable limit now locked t)
unfolding select_claimable claimable
select_claimable-open limit now locked t = take-AllTrue open_row limit _ (
    sort_by-AllTrue open_row _ _
      (where_true-AllTrue _ open_row (λ (i, row) e. ground (arith, e)) t))

claim-Orderly :
    (p : OutboxPublisher) (limit now : ℕ) (locked : ℕ → Bool) (w : World)
    → Orderly w.tables
    → Orderly (claim p limit now locked w).1.tables
unfolding claim claim_rows pure
claim-Orderly p limit now locked w h = keeps_test Orderly _ _ _ w h (
    transaction_keeps Orderly _ w h (
      Post-gets _ _ w
        (claim_each-Orderly p now _ w (select_claimable-open limit now locked w.outbox) h)))

mark_published-Orderly :
    (event : ClaimedEvent) (now : ℕ) (w : World)
    → Orderly w.tables
    → Orderly (mark_published event now w).1.tables
unfolding mark_published held_row published_row
mark_published-Orderly event now w h =
    transaction_keeps Orderly _ w h
      (update_outbox-Orderly _ _ w (λ i row e o. ground (arith, e, o)) h)

record_dead_letter-Orderly :
    (p : OutboxPublisher) (event : ClaimedEvent) (error : String) (now : ℕ) (w : World)
    → Orderly w.tables
    → Post (λ _ v. Orderly v.tables) (record_dead_letter p event error now w)
unfolding record_dead_letter ◌>>=◌
record_dead_letter-Orderly p event error now w h =
    elim (Bool-cases
      (any (letter_of (outbox_publisher p.publisher_id) event.event_id) w.dead_letters)) [
        | inl e ↦ rw e (done h)
        | inr e ↦ rw e (done h)
      ]

dead_letter-Orderly :
    (p : OutboxPublisher) (event : ClaimedEvent) (error : String) (now : ℕ) (w : World)
    → Orderly w.tables
    → Orderly (dead_letter p event error now w).1.tables
unfolding dead_letter dead_letter_body held_row dead_row
dead_letter-Orderly p event error now w h = transaction_keeps Orderly _ w h (
    Post-bind _ _ w (update_outbox-Orderly _ _ w (λ i row e o. ground (arith, e, o)) h)
      λ _ v s. record_dead_letter-Orderly p event error now v s)

schedule_retry-Orderly :
    (event : ClaimedEvent) (error : String) (now : ℕ) (delay : Option ℕ) (w : World)
    → Orderly w.tables
    → Orderly (schedule_retry event error now delay w).1.tables
unfolding schedule_retry throw held_row failed_row
schedule_retry-Orderly event error now none w h = h
schedule_retry-Orderly event error now (some delay) w h =
    transaction_keeps Orderly _ w h
      (update_outbox-Orderly _ _ w (λ i row e o. ground (arith, e, o)) h)

mark_failed-Orderly :
    (p : OutboxPublisher) (event : ClaimedEvent) (error : String) (now : ℕ) (w : World)
    → Orderly w.tables
    → Orderly (mark_failed p event error now w).1.tables
unfolding mark_failed give_up_on pure
mark_failed-Orderly p event error now w h =
    keeps_test Orderly _ _ _ w
      (keeps_bind Orderly _ _ w (dead_letter-Orderly p event error now w h) λ _ v s. s)
      (schedule_retry-Orderly event error now (retry_delay p event.attempt) w h)

after_transport-Orderly :
    (p : OutboxPublisher) (now : ℕ) (event : ClaimedEvent) (outcome : Option String) (w : World)
    → Orderly w.tables
    → Orderly (after_transport p now event outcome w).1.tables
unfolding after_transport pure
after_transport-Orderly p now event none w h = mark_published-Orderly event now w h
after_transport-Orderly p now event (some error) w h =
    keeps_bind Orderly _ _ w (mark_failed-Orderly p event error now w h) λ _ v s. s

-- A batch, whatever the transport does with each of its events, leaves every row of the outbox
-- claimed only if it is neither published nor dead, and never both published and dead, where that
-- held of every row before.
pub publish_batch-Orderly :
    (p : OutboxPublisher) (transport : ClaimedEvent → Option String) (limit now : ℕ)
    (locked : ℕ → Bool) (w : World)
    → Orderly w.tables
    → Orderly (publish_batch p transport limit now locked w).1.tables
unfolding publish_batch publish_one pure
publish_batch-Orderly p transport limit now locked w h =
    keeps_bind Orderly _ _ w (claim-Orderly p limit now locked w h) λ events v s.
      keeps_bind Orderly _ _ v
        (keeps_for_each Orderly (publish_one p transport now)
          (λ event u j. after_transport-Orderly p now event (transport event) u j) events v s)
        λ _ u j. j
