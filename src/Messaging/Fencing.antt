-- ===== src/Messaging/Fencing.antt =====
-- `_mark_published` and `_mark_failed`, messaging/outbox.py, after `_claim` gave the row to another.
use autonomous_swe.Prelude.{
  ℕ, String, ◌≡◌, refl, ap, Bool, true, false, Option, none, some, [], ◌∷◌, Table, get, put, any,
  leb, is_some, Distinct, ==→eq, ◌==◌, Bool-cases, inl, inr, arith,
}
use autonomous_swe.Persistence.Rows.{OutboxRow}
use autonomous_swe.Persistence.Session.{
  World, return, throw, uuid4, pure, ◌>>=◌, transaction, test◌then◌else◌,
}
use autonomous_swe.Messaging.Outbox.{
  OutboxPublisher, ClaimedEvent, claimed_row, claim_row, update_where, update_outbox, token_is,
  held_row, unpublished_row, retry_delay, schedule_retry, mark_published, mark_failed,
}

no_match :
    (wanted : ℕ × OutboxRow → Bool) (change : OutboxRow → OutboxRow) (t : Table OutboxRow)
    → any wanted t ≡ false
    → update_where wanted change t ≡ t
unfolding update_where
no_match wanted change [] h = refl
no_match wanted change ((i, row) ∷ rest) h = grind (arith, no_match wanted change rest)

narrower :
    (event : ClaimedEvent) (t : Table OutboxRow)
    → any (held_row event) t ≡ false
    → any (unpublished_row event) t ≡ false
narrower event [] h = refl
narrower event ((i, row) ∷ rest) h = grind (arith, narrower event rest)

update_outbox-none :
    (wanted : ℕ × OutboxRow → Bool) (change : OutboxRow → OutboxRow) (w : World)
    → any wanted w.outbox ≡ false
    → transaction (update_outbox wanted change) w ≡ (return false, w)
unfolding update_outbox transaction ◌>>=◌
update_outbox-none wanted change w h = rw (h, no_match wanted change w.outbox h) refl

absent :
    (event : ClaimedEvent) (t : Table OutboxRow)
    → get event.event_id t ≡ none
    → any (held_row event) t ≡ false
unfolding held_row get
absent event [] h = refl
absent event ((i, row) ∷ rest) h = ground (arith, h, absent event rest)

-- A row under a token is not under another.
other_token :
    (event : ClaimedEvent) (row : OutboxRow) (t : Table OutboxRow)
    → Distinct t
    → token_is event.claim_token row.claim_token ≡ false
    → any (held_row event) (put event.event_id row t) ≡ false
unfolding held_row put
other_token event row [] d e = rw e (ground arith)
other_token event row ((i, r) ∷ rest) d e = elim (Bool-cases (i == event.event_id)) [
  | inl same ↦
      rw (same, e, absent event rest (rw (==→eq i event.event_id same) at d.0)) (ground arith)
  | inr other ↦ rw (other, other_token event row rest d.1 e) (ground (arith, other))
]

own_token :
    (event : ClaimedEvent) (row : OutboxRow) (t : Table OutboxRow)
    → token_is event.claim_token row.claim_token ≡ true
    → is_some row.published_at ≡ false
    → any (unpublished_row event) (put event.event_id row t) ≡ true
unfolding held_row put
own_token event row [] e u = rw (e, u) (ground arith)
own_token event row ((i, r) ∷ rest) e u = elim (Bool-cases (i == event.event_id)) [
  | inl same ↦ rw (same, e, u) (ground arith)
  | inr other ↦ rw (other, own_token event row rest e u) (ground arith)
]

update_outbox-found :
    (wanted : ℕ × OutboxRow → Bool) (change : OutboxRow → OutboxRow) (w : World)
    → any wanted w.outbox ≡ true
    → (transaction (update_outbox wanted change) w).0 ≡ return true
unfolding update_outbox transaction ◌>>=◌
update_outbox-found wanted change w h = rw h refl

schedule_retry-none :
    (event : ClaimedEvent) (error : String) (now : ℕ) (delay : Option ℕ) (w : World)
    → any (held_row event) w.outbox ≡ false
    → (schedule_retry event error now delay w).1 ≡ w
unfolding schedule_retry throw
schedule_retry-none event error now none w h = refl
schedule_retry-none event error now (some delay) w h = ap (λ r. r.1) (update_outbox-none _ _ w h)

-- The world after a publisher claimed the row of an event.
abbrev pub taken : OutboxPublisher → ℕ → ℕ → OutboxRow → World → World
taken q now event_id row w = (claim_row q now (event_id, row) w).1

-- After a publisher claimed the row of an event, under a token that differs from that of an earlier
-- claim, the holder of the earlier claim changes nothing by a publication, which reports false, or
-- by a failure short of the last attempt, whatever comes of its delay. The new holder's publication
-- reports true, where the row was not published.
pub lost_claim-keeps :
    (p q : OutboxPublisher) (event : ClaimedEvent) (row : OutboxRow) (error : String)
    (now later : ℕ) (w : World)
    → Distinct w.outbox
    → (w.draws w.drawn == event.claim_token) ≡ false
    → leb p.max_attempts event.attempt ≡ false
    → is_some row.published_at ≡ false
    → (mark_published event later (taken q now event.event_id row w)
        ≡ (return false, taken q now event.event_id row w))
      × ((mark_failed p event error later (taken q now event.event_id row w)).1
          ≡ taken q now event.event_id row w)
      × (((claim_row q now (event.event_id, row) >>= λ own. mark_published own later) w).0
          ≡ return true)
unfolding claim_row claimed_row uuid4 mark_published mark_failed pure test◌then◌else◌ ◌>>=◌
lost_claim-keeps p q event row error now later w keys fresh early unpublished =
    let v = taken q now event.event_id row w in
    let lost = other_token event (claimed_row q now (w.draws w.drawn) row) w.outbox keys fresh in
    (
      update_outbox-none _ _ v (narrower event v.outbox lost),
      rw early (schedule_retry-none event error later (retry_delay p event.attempt) v lost),
      update_outbox-found _ _ v (
          own_token _ (claimed_row q now (w.draws w.drawn) row) w.outbox (ground arith)
            unpublished),
    )
