-- ===== src/Scheduler/Service.antt =====
-- execution/scheduler/service.py: what the operations of `SchedulerService` share.
use autonomous_swe.Prelude.{
  ℕ, String, Bool, false, not, ◌&&◌, ◌||◌, Option, none, some, Table, get, remove, take, where_true,
  sort_by, ltb, leb, ◌==◌, str_eq,
}
use autonomous_swe.Domain.Enums.{TaskStatus}
use autonomous_swe.Persistence.Rows.{TaskRow, LeaseRow}
use autonomous_swe.Persistence.Session.{World, Exec, modify, ◌>>◌}
use autonomous_swe.Scheduler.Reservations.{release_reservations}
use autonomous_swe.Scheduler.Policy.{ConcurrencyPolicy}

pub record SchedulerService : Type 0 where
  pub policy : ConcurrencyPolicy
  pub lease_ttl : ℕ

-- The two statements at the end of every operation that takes a task out of flight: its
-- reservations are released and its lease is deleted.
unfoldable pub clean_up : ℕ → ℕ → Exec Unit
unfolding release_reservations
clean_up task_id now = do
  release_reservations task_id now
  modify (λ t. record t { leases = remove task_id t.leases })

-- `lease.owner != owner or lease.token != token`, or no lease at all, is `false`.
abbrev pub owned_by : String → ℕ → Option LeaseRow → Bool
owned_by owner token none = false
owned_by owner token (some l) = str_eq l.owner owner && l.token == token

abbrev pub state_of : World → ℕ → Option TaskStatus
state_of w task_id = elim (get task_id w.tasks) [ none ↦ none | some row ↦ some row.state ]

-- `ORDER BY created_at, id`
abbrev pub created_before : ℕ × TaskRow → ℕ × TaskRow → Bool
created_before (i, a) (j, b) =
    ltb a.created_at b.created_at || (a.created_at == b.created_at && leb i j)

-- `SELECT … ORDER BY … LIMIT … FOR UPDATE SKIP LOCKED`: `locked` says which rows another
-- transaction holds.
unfoldable pub select_tasks :
    (TaskRow → Bool)
    → (ℕ × TaskRow → ℕ × TaskRow → Bool)
    → ℕ
    → (ℕ → Bool)
    → Table TaskRow
    → Table TaskRow
select_tasks wanted precedes limit locked tasks =
    take limit (sort_by precedes (where_true (λ (i, row). wanted row && not (locked i)) tasks))
