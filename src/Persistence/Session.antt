-- ===== src/Persistence/Session.antt =====
-- persistence/database.py: a session over the tables, and the transaction that rolls back.
-- What the code takes from outside is part of the world: the readings of the clock and the random
-- UUIDs, each a stream with the number of those used, the observations that go to the metrics, and
-- the stream entries that were acknowledged.
use autonomous_swe.Prelude.{ℕ, ◌+◌, Bool, true, false, Option, none, some, List, [], ◌∷◌, Table}
use autonomous_swe.Persistence.Rows.{
  TaskRow, RunRow, RepositoryRow, TaskAttemptRow, ModelCallRow, LeaseRow, ReservationRow,
  GraphExecutionRow, StateDurationRow, AuditEventRow, OutboxRow, DeadLetterRow, ConsumerReceiptRow,
  ConsumerDeliveryRow,
}

pub record Tables : Type 0 where
  pub tasks : Table TaskRow
  pub runs : Table RunRow
  pub repositories : Table RepositoryRow
  pub attempts : Table TaskAttemptRow
  pub model_calls : List ModelCallRow
  pub leases : Table LeaseRow
  pub reservations : List ReservationRow
  pub graphs : Table GraphExecutionRow
  pub durations : List StateDurationRow
  pub audit : List AuditEventRow
  pub outbox : Table OutboxRow
  pub dead_letters : List DeadLetterRow
  pub receipts : List ConsumerReceiptRow
  pub deliveries : List ConsumerDeliveryRow

pub record World : Type 0 where
  pub tables : Tables
  pub open tables use *
  pub ticks : ℕ → ℕ
  pub ticked : ℕ
  pub draws : ℕ → ℕ
  pub drawn : ℕ
  pub dispatch_latencies : List ℕ
  pub acknowledged : List ℕ

pub data Error : Type 0 where
  lookup_error stale_state invalid_state_transition permission_error : Error
  value_error runtime_error budget_exhausted integrity_error overflow_error : Error

pub data Result (A : Type 0) : Type 0 where
  return : A → Result A
  raise : Error → Result A

abbrev pub Exec : Type 0 → Type 0
Exec A = World → Result A × World

module _ {A : Type 0} where
  unfoldable pub pure : A → Exec A
  pure a w = (return a, w)

  unfoldable pub throw : Error → Exec A
  throw e w = (raise e, w)

  unfoldable pub gets : (World → A) → Exec A
  gets f w = (return (f w), w)

  -- `if row is None: raise …`
  unfoldable pub or_raise : Option A → Error → Exec A
  or_raise none e = throw e
  or_raise (some a) e = pure a

  -- `async with database.transaction()`: an exception restores the tables, and nothing else.
  abbrev pub ended : World → Result A → World → Result A × World
  ended before (return a) after = (return a, after)
  ended before (raise e) after = (raise e, record after { tables = before.tables })

  unfoldable pub transaction : Exec A → Exec A
  transaction m w = let (r, after) = m w in ended w r after

unfoldable pub modify : (Tables → Tables) → Exec Unit
modify f w = (return tt, record w { tables = f w.tables })

-- An `if` statement.
infix 1 test◌then◌else◌
unfoldable pub test◌then◌else◌ : {A : Type 0} → Bool → Exec A → Exec A → Exec A
test true then m else n = m
test false then m else n = n

-- `if not condition: raise …`
unfoldable pub guard : Bool → Error → Exec Unit
guard true e = pure tt
guard false e = throw e

unfoldable pub when : Bool → Exec Unit → Exec Unit
when true m = m
when false m = pure tt

module _ {A B : Type 0} where
  abbrev pub continue : Result A → (A → Exec B) → Exec B
  continue (return a) f w = f a w
  continue (raise e) f w = (raise e, w)

  infixl 10 ◌>>=◌
  -- opening this opens the actions above too
  unfoldable pub ◌>>=◌ : Exec A → (A → Exec B) → Exec B
  unfolding pure throw gets or_raise modify guard when test◌then◌else◌
  ◌>>=◌ m f w = let (r, w') = m w in continue r f w'

infixl 10 ◌>>◌
abbrev pub ◌>>◌ : {B : Type 0} → Exec Unit → Exec B → Exec B
m >> n = m >>= λ _. n

-- `utc_now()`, and `datetime.now(UTC)`
unfoldable pub utc_now : Exec ℕ
utc_now w = (return (w.ticks w.ticked), record w { ticked = w.ticked + 1 })

unfoldable pub uuid4 : Exec ℕ
uuid4 w = (return (w.draws w.drawn), record w { drawn = w.drawn + 1 })

-- A `for` loop, with the results of its rounds.
module _ {A B : Type 0} where
  unfoldable pub for_each : List A → (A → Exec B) → Exec (List B)
  for_each [] body = pure []
  for_each (a ∷ rest) body = body a >>= λ b. for_each rest body >>= λ bs. pure (b ∷ bs)
