-- ===== src/Scheduler/Invariant.antt =====
-- What holds of the tasks, the leases and the reservations between two transactions.
use autonomous_swe.Prelude.{
  ℕ, ◌+◌, ◌≤◌, ◌≡◌, ◌∙◌, Bool, true, false, Option, none, some, List, [], ◌∷◌, ◌++◌, Table, get,
  put, remove, Distinct, put-Distinct, is_some, get-put, get-remove, Bool-cases, inl, inr, ◌==◌,
  arith,
}
use autonomous_swe.Domain.Enums.{TaskStatus}
use autonomous_swe.Persistence.Rows.{TaskRow, LeaseRow, Resource, ReservationRow}
use autonomous_swe.Scheduler.Policy.{ConcurrencyPolicy}
use autonomous_swe.Scheduler.Reservations.{
  units_where, active_units, held_by, released, units_where-append, held_by-released_ne,
  active_units-released_le,
}

-- LEASED or RUNNING
abbrev pub flies : TaskStatus → Bool
flies TaskStatus.leased = true
flies TaskStatus.running = true
flies _ = false

abbrev pub in_flight : Option TaskRow → Bool
in_flight none = false
in_flight (some row) = flies row.state

-- The ceiling of a resource over all projects.
abbrev pub ceiling : ConcurrencyPolicy → Resource → ℕ
ceiling p Resource.task = p.max_parallel_tasks
ceiling p Resource.model = p.max_model_concurrency
ceiling p Resource.sandbox = p.max_sandbox_concurrency

module _ (p : ConcurrencyPolicy) where
  -- No task stands twice, a lease stands only for a task in flight, a reservation is held only by a leased task, and no
  -- resource is reserved beyond its ceiling.
  pub record IsSound (tasks : Table TaskRow) (leases : Table LeaseRow) (rs : List ReservationRow)
      : Type 0 where
    pub keyed : Distinct tasks
    pub leased_flies : (j : ℕ) → is_some (get j leases) ≡ true → in_flight (get j tasks) ≡ true
    pub held_leased : (j : ℕ) → is_some (get j leases) ≡ false → held_by j rs ≡ 0
    pub capped : (r : Resource) → active_units r rs ≤ ceiling p r

  -- The same, but for the one task that an operation is at work on.
  pub record IsSoundBut (k : ℕ) (tasks : Table TaskRow) (leases : Table LeaseRow)
      (rs : List ReservationRow) : Type 0 where
    pub keyed : Distinct tasks
    pub leased_flies :
        (j : ℕ) → (k == j) ≡ false → is_some (get j leases) ≡ true → in_flight (get j tasks) ≡ true
    pub held_leased : (j : ℕ) → (k == j) ≡ false → is_some (get j leases) ≡ false → held_by j rs ≡ 0
    pub capped : (r : Resource) → active_units r rs ≤ ceiling p r

module _ {p : ConcurrencyPolicy} {tasks : Table TaskRow} {leases : Table LeaseRow}
    {rs : List ReservationRow} where
  pub IsSoundBut-of : (k : ℕ) → IsSound p tasks leases rs → IsSoundBut p k tasks leases rs
  IsSoundBut-of k h = record {
    keyed = h.keyed;
    leased_flies = λ j _. h.leased_flies j;
    held_leased = λ j _. h.held_leased j;
    capped = h.capped;
  }

  -- The work is over where the task has neither a lease nor a reservation,
  pub IsSound-clear :
      (k : ℕ)
      → IsSoundBut p k tasks leases rs
      → get k leases ≡ none
      → held_by k rs ≡ 0
      → IsSound p tasks leases rs
  IsSound-clear k h gone idle = record {
    keyed = h.keyed;
    leased_flies = λ j e. elim (Bool-cases (k == j)) [
      | inl same ↦ ground (arith, gone)
      | inr other ↦ h.leased_flies j other e
    ];
    held_leased = λ j e. elim (Bool-cases (k == j)) [
      | inl same ↦ ground (arith, idle)
      | inr other ↦ h.held_leased j other e
    ];
    capped = h.capped;
  }

  -- or where it is in flight under a lease.
  pub IsSound-leased :
      (k : ℕ)
      → IsSoundBut p k tasks leases rs
      → in_flight (get k tasks) ≡ true
      → is_some (get k leases) ≡ true
      → IsSound p tasks leases rs
  IsSound-leased k h flying held = record {
    keyed = h.keyed;
    leased_flies = λ j e. elim (Bool-cases (k == j)) [
      | inl same ↦ ground (arith, flying)
      | inr other ↦ h.leased_flies j other e
    ];
    held_leased = λ j e. elim (Bool-cases (k == j)) [
      | inl same ↦ ground (arith, held)
      | inr other ↦ h.held_leased j other e
    ];
    capped = h.capped;
  }

  pub put_task-IsSoundBut :
      (k : ℕ) (row : TaskRow)
      → IsSoundBut p k tasks leases rs
      → IsSoundBut p k (put k row tasks) leases rs
  put_task-IsSoundBut k row h = record {
    keyed = put-Distinct k row tasks h.keyed;
    leased_flies = λ j other e. rw (get-put, other) (h.leased_flies j other e);
    held_leased = h.held_leased;
    capped = h.capped;
  }

  pub put_lease-IsSoundBut :
      (k : ℕ) (l : LeaseRow)
      → IsSoundBut p k tasks leases rs
      → IsSoundBut p k tasks (put k l leases) rs
  put_lease-IsSoundBut k l h = record {
    keyed = h.keyed;
    leased_flies = λ j other e. h.leased_flies j other (rw (get-put, other) at e);
    held_leased = λ j other e. h.held_leased j other (rw (get-put, other) at e);
    capped = h.capped;
  }

  pub remove_lease-IsSoundBut :
      (k : ℕ) → IsSoundBut p k tasks leases rs → IsSoundBut p k tasks (remove k leases) rs
  remove_lease-IsSoundBut k h = record {
    keyed = h.keyed;
    leased_flies = λ j other e. h.leased_flies j other (rw (get-remove, other) at e);
    held_leased = λ j other e. h.held_leased j other (rw (get-remove, other) at e);
    capped = h.capped;
  }

  pub released-IsSoundBut :
      (k now : ℕ) → IsSoundBut p k tasks leases rs → IsSoundBut p k tasks leases (released k now rs)
  released-IsSoundBut k now h = record {
    keyed = h.keyed;
    leased_flies = h.leased_flies;
    held_leased = λ j other e. held_by-released_ne k j now rs other ∙ h.held_leased j other e;
    capped = λ r. omega (arith, active_units-released_le r k now rs, h.capped r);
  }

  -- A new reservation within the ceiling.
  pub reserve-IsSoundBut :
      (k : ℕ) (new : ReservationRow)
      → IsSoundBut p k tasks leases rs
      → new.task_id ≡ k
      → active_units new.resource rs + new.units ≤ ceiling p new.resource
      → IsSoundBut p k tasks leases (rs ++ new ∷ [])
  unfolding units_where
  reserve-IsSoundBut k new h mine fits = record {
    keyed = h.keyed;
    leased_flies = h.leased_flies;
    held_leased = λ j other e. rw units_where-append (ground (arith, h.held_leased j other e));
    capped = λ r. rw units_where-append (ground (arith, h.capped r));
  }
