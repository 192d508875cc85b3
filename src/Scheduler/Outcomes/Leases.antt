-- ===== src/Scheduler/Outcomes/Leases.antt =====
-- `heartbeat`, execution/scheduler/service.py.
use autonomous_swe.Prelude.{
  ℕ, ◌+◌, String, ◌≡◌, refl, ap, ◌∙◌, Bool, true, false, not, ◌&&◌, Option, none, some, get,
  get-put, ==_refl, ◌==◌, leb, str_eq, if◌then◌else◌, Bool-cases, inl, inr,
}
use autonomous_swe.Domain.Transitions.{terminal_task}
use autonomous_swe.Persistence.Rows.{TaskRow, LeaseRow}
use autonomous_swe.Persistence.Session.{World, return, transaction, ◌>>=◌}
use autonomous_swe.Scheduler.Service.{SchedulerService, owned_by, state_of}
use autonomous_swe.Scheduler.Execution.{renew, heartbeat, is_terminal}
use autonomous_swe.Reconciliation.Decision.{lapsed}

abbrev is_over : Option TaskRow → Bool
is_over none = false
is_over (some task) = terminal_task task.state

abbrev is_held : String → ℕ → Option LeaseRow → Bool
is_held owner token none = false
is_held owner token (some l) = str_eq l.owner owner && l.token == token

-- The task has not ended, and its lease has this owner and this token.
abbrev alive : ℕ → String → ℕ → World → Bool
alive k owner token w = not (is_over (get k w.tasks)) && is_held owner token (get k w.leases)

-- The lease beats at one time and runs up to another.
abbrev extended : ℕ → ℕ → Option LeaseRow → Option LeaseRow
extended now until none = none
extended now until (some l) = some record l { heartbeat_at = now; expires_at = until }

abbrev kept : Bool → ℕ → ℕ → Option LeaseRow → Option LeaseRow
kept answer now until o = if answer then extended now until o else o

renew_at :
    (s : SchedulerService) (k : ℕ) (owner : String) (token now : ℕ) (o : Option LeaseRow)
    (w : World)
    → get k w.leases ≡ o
    → ((transaction (renew s k owner token now o) w).0 ≡ return (is_held owner token o))
      × (get k (transaction (renew s k owner token now o) w).1.leases
          ≡ kept (is_held owner token o) now (now + s.lease_ttl) o)
unfolding renew transaction ◌>>=◌
renew_at s k owner token now none w e = (refl, e)
renew_at s k owner token now (some l) w e = elim (Bool-cases (owned_by owner token (some l))) [
  | inl mine ↦ rw mine (refl, rw (get-put, ==_refl k) refl)
  | inr other ↦ rw other (refl, e)
]

is_terminal-state_of : (w : World) (k : ℕ) → is_terminal (state_of w k) ≡ is_over (get k w.tasks)
is_terminal-state_of w k =
    elim (get k w.tasks)
      as (λ o. is_terminal (elim o [ none ↦ none | some row ↦ some row.state ]) ≡ is_over o) [
        | none ↦ refl
        | some row ↦ refl
      ]

beats :
    (s : SchedulerService) (k : ℕ) (owner : String) (token now : ℕ) (w : World)
    → ((heartbeat s k owner token now w).0 ≡ return (alive k owner token w))
      × (get k (heartbeat s k owner token now w).1.leases
          ≡ kept (alive k owner token w) now (now + s.lease_ttl) (get k w.leases))
unfolding heartbeat ◌>>=◌ transaction
beats s k owner token now w =
    rw (is_terminal-state_of w k) (elim (Bool-cases (is_over (get k w.tasks))) [
      | inl over ↦ rw over (refl, refl)
      | inr goes ↦ rw goes (renew_at s k owner token now (get k w.leases) w refl)
    ])

lapsed-kept :
    (goes : Bool) (owner : String) (token now until later : ℕ) (o : Option LeaseRow)
    → lapsed (kept (goes && is_held owner token o) now until o) later
      ≡ (if goes && is_held owner token o then leb until later else lapsed o later)
unfolding lapsed
lapsed-kept false owner token now until later o = refl
lapsed-kept true owner token now until later none = refl
lapsed-kept true owner token now until later (some l) =
    elim (Bool-cases (is_held owner token (some l))) [ inl e ↦ rw e refl | inr e ↦ rw e refl ]

-- A heartbeat never raises. It answers true exactly if the task has not ended and its lease has
-- the caller's owner and token. Then the lease keeps these, beats at this time, and has lapsed at a
-- later reading of the clock exactly if a whole term has passed by then; otherwise the lease is left
-- as it was.
pub heartbeat_lem :
    (s : SchedulerService) (k : ℕ) (owner : String) (token now later : ℕ) (w : World)
    → ((heartbeat s k owner token now w).0 ≡ return (alive k owner token w))
      × (get k (heartbeat s k owner token now w).1.leases
          ≡ kept (alive k owner token w) now (now + s.lease_ttl) (get k w.leases))
      × (lapsed (get k (heartbeat s k owner token now w).1.leases) later ≡ (
          if alive k owner token w
          then leb (now + s.lease_ttl) later
          else lapsed (get k w.leases) later))
heartbeat_lem s k owner token now later w =
    let (answered, left) = beats s k owner token now w in
    (
      answered,
      left,
      ap (λ o. lapsed o later) left
          ∙ lapsed-kept (not (is_over (get k w.tasks))) owner token now (now + s.lease_ttl) later
              (get k w.leases),
    )
