-- ===== src/Control/Reachable.antt =====
-- The worlds that the control plane reaches.
use autonomous_swe.Prelude.{
  ℕ, ◌≡◌, ◌≤◌, refl, none, [], get, put, Distinct, is_some, true, ap, Table, ◌∷◌, arith,
}
use autonomous_swe.Persistence.Rows.{TaskRow, LeaseRow, Resource}
use autonomous_swe.Persistence.Session.{Tables, World}
use autonomous_swe.Scheduler.Policy.{ConcurrencyPolicy}
use autonomous_swe.Scheduler.Reservations.{active_units, units_where}
use autonomous_swe.Scheduler.Service.{SchedulerService}
use autonomous_swe.Scheduler.Invariant.{IsSound, IsSoundBut-of, put_task-IsSoundBut, ceiling}
use autonomous_swe.Scheduler.Soundness.Steps.{Sound, Sound-done}
use autonomous_swe.Scheduler.Soundness.Cancelling.{cancel_task-Sound, reclaim_expired-Sound}
use autonomous_swe.Scheduler.Soundness.Finishing.{
  heartbeat-Sound, start_claim-Sound, finish_claim-Sound,
}
use autonomous_swe.Scheduler.Soundness.Queues.{
  promote_dependency_ready-Sound, cancel_blocked_dependents-Sound, cancel_requested_runs-Sound,
}
use autonomous_swe.Scheduler.Soundness.Claims.{claim_ready-Sound}
use autonomous_swe.Reconciliation.Soundness.{
  reconcile-Sound, reconcile_due-Sound, resolve_needs_reconciliation-Sound,
}
use autonomous_swe.Control.Steps.{
  Step, claims, beats, starts, finishes, promotes, cascades, reclaims, cancels, cancels_runs,
  reconciles, reconciles_due, resolves, plans, elsewhere, Reach, here, after,
}

-- A new task holds nothing.
plan-Sound :
    {p : ConcurrencyPolicy} (k : ℕ) (row : TaskRow) (t : Tables)
    → get k t.leases ≡ none
    → Sound p t
    → Sound p (record t { tasks = put k row t.tasks })
plan-Sound k row t bare h =
    Sound-done k (record t { tasks = put k row t.tasks })
      (put_task-IsSoundBut k row (IsSoundBut-of k h)) (bare, h.held_leased k (ap is_some bare))

Step-Sound :
    {s : SchedulerService} {w v : World}
    → Step s w v
    → Sound s.policy w.tables
    → Sound s.policy v.tables
Step-Sound {s} {w} (claims owner limit now locked) h =
    claim_ready-Sound s owner limit now locked w h
Step-Sound {s} {w} (beats k owner token now) h = heartbeat-Sound s k owner token now w h
Step-Sound {s} {w} (starts c now) h = start_claim-Sound s c now w h
Step-Sound {s} {w} (finishes c target) h = finish_claim-Sound s c target w h
Step-Sound {w} (promotes limit rounds locked) h =
    promote_dependency_ready-Sound limit rounds locked w h
Step-Sound {w} (cascades limit rounds locked) h =
    cancel_blocked_dependents-Sound limit rounds locked w h
Step-Sound {w} (reclaims now limit) h = reclaim_expired-Sound now limit w h
Step-Sound {w} (cancels project_id k) h = cancel_task-Sound project_id k w h
Step-Sound {w} (cancels_runs limit) h = cancel_requested_runs-Sound limit w h
Step-Sound {w} (reconciles project_id k now) h = reconcile-Sound k project_id now w h
Step-Sound {w} (reconciles_due limit now) h = reconcile_due-Sound limit now w h
Step-Sound {w} (resolves project_id k r now) h =
    resolve_needs_reconciliation-Sound k project_id r now w h
Step-Sound {w} (plans k row new bare pending) h = plan-Sound k row w.tables bare h
Step-Sound {s} {w} {v} (elsewhere e f g) h = rw (e, f, g) h

-- Every world that the control plane reaches, from one that satisfies the invariant, satisfies it:
-- the active reservations of each resource stay within the policy's ceiling over all projects, a
-- lease stands only for a task that is LEASED or RUNNING, and a task without a lease holds no
-- reservation.
pub Reach-IsSound :
    {s : SchedulerService} {w v : World}
    → Reach s w v
    → IsSound s.policy w.tasks w.leases w.reservations
    → IsSound s.policy v.tasks v.leases v.reservations
Reach-IsSound here h = h
Reach-IsSound (after r step) h = Step-Sound step (Reach-IsSound r h)

none_leased :
    {B : Type 0} (j : ℕ) (leases : Table LeaseRow) → leases ≡ [] → is_some (get j leases) ≡ true → B
unfolding get
none_leased j [] h e = ground arith
none_leased j (l ∷ ls) h e = ground arith

-- From tables without leases and reservations in which no two tasks have one identifier, however
-- the transactions interleave, no resource is ever reserved beyond its ceiling, over all projects.
pub Reach-capped :
    {s : SchedulerService} {w v : World}
    → Distinct w.tasks
    → w.leases ≡ []
    → w.reservations ≡ []
    → Reach s w v
    → (r : Resource) → active_units r v.reservations ≤ ceiling s.policy r
unfolding units_where
Reach-capped {s} {w} keyed bare idle reach r =
    (Reach-IsSound reach record {
      keyed = keyed;
      leased_flies = λ j e. none_leased j w.leases bare e;
      held_leased = λ j e. rw idle refl;
      capped = λ q. rw idle (omega arith);
    }).capped
      r
