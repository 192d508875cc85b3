-- ===== src/Scheduler/Claiming.antt =====
-- execution/scheduler/service.py: `claim_ready`.
use autonomous_swe.Prelude.{
  ℕ, ◌+◌, ◌-◌, String, Bool, true, not, ◌&&◌, ◌||◌, Option, none, some, List, [], ◌∷◌, ◌++◌, Table,
  where_true, ltb, ◌==◌, if◌then◌else◌,
}
use autonomous_swe.Domain.Enums.{TaskStatus}
use autonomous_swe.Domain.Equality.{task_is}
use autonomous_swe.Persistence.Rows.{TaskRow, Resource}
use autonomous_swe.Persistence.Session.{
  test◌then◌else◌, Exec, pure, gets, transaction, uuid4, for_each, ◌>>=◌, ◌>>◌,
}
use autonomous_swe.Persistence.Repository.{transition_task, create_lease}
use autonomous_swe.Scheduler.Policy.{evaluate_admission, resource_request}
use autonomous_swe.Scheduler.Reservations.{
  admission_snapshot, reserve_with_global_cap, release_reservations,
}
use autonomous_swe.Scheduler.Service.{SchedulerService, created_before, select_tasks}

pub record TaskClaim : Type 0 where
  pub task_id : ℕ
  pub project_id : ℕ
  pub owner : String
  pub token : ℕ
  pub expires_at : ℕ

-- `ORDER BY priority DESC, created_at, id`
abbrev pub claims_before : ℕ × TaskRow → ℕ × TaskRow → Bool
claims_before (i, a) (j, b) =
    ltb b.priority a.priority || (a.priority == b.priority && created_before (i, a) (j, b))

abbrev is_ready : TaskRow → Bool
is_ready row = task_is row.state TaskStatus.ready

-- The keys of `by_project`, sorted.
abbrev insert_project : ℕ → List ℕ → List ℕ
insert_project p [] = p ∷ []
insert_project p (q ∷ qs) =
    if p == q then q ∷ qs else if ltb p q then p ∷ q ∷ qs else q ∷ insert_project p qs

abbrev projects_of : Table TaskRow → List ℕ
projects_of [] = []
projects_of ((i, row) ∷ rest) = insert_project row.project_id (projects_of rest)

abbrev grouped : List ℕ → Table TaskRow → Table TaskRow
grouped [] candidates = []
grouped (p ∷ ps) candidates =
    where_true (λ (i, row). row.project_id == p) candidates ++ grouped ps candidates

-- The candidates of `claim_ready` in the order of its two loops.
unfoldable pub by_project : Table TaskRow → Table TaskRow
by_project candidates = grouped (projects_of candidates) candidates

abbrev pub observe_dispatch : ℕ → Exec Unit
observe_dispatch latency w =
    pure tt (record w { dispatch_latencies = w.dispatch_latencies ++ latency ∷ [] })

-- `task` is the object that `transition_task` has just updated, so its `state_entered_at` is the
-- time of this transition.
unfoldable pub grant : SchedulerService → String → ℕ → ℕ → ℕ → TaskRow → Exec (Option TaskClaim)
grant s owner now token task_id row = do
  leased ← transition_task row.project_id task_id row.version TaskStatus.leased
  create_lease task_id owner token (now + s.lease_ttl)
  observe_dispatch (now - leased.state_entered_at)
  pure (
      some record {
        task_id = task_id;
        project_id = row.project_id;
        owner = owner;
        token = token;
        expires_at = now + s.lease_ttl;
      })

-- `request.slots and not await self._reserve_with_global_cap(…)` is the negation.
unfoldable pub reserve_slots : ℕ → TaskRow → Resource → ℕ → ℕ → Exec Bool
reserve_slots task_id row resource slots cap =
    test slots == 0
    then pure true
    else reserve_with_global_cap task_id row.project_id resource slots cap

-- `continue` after a reservation that found no room
abbrev pub give_up : ℕ → ℕ → Exec (Option TaskClaim)
give_up task_id now = do release_reservations task_id now; pure none

unfoldable pub reserve_and_grant :
    SchedulerService → String → ℕ → ℕ → ℕ → TaskRow → Exec (Option TaskClaim)
reserve_and_grant s owner now token task_id row = do
  let request = resource_request row
  model ←
      reserve_slots task_id row Resource.model request.model_slots s.policy.max_model_concurrency
  test not model then give_up task_id now else do
    sandbox ←
        reserve_slots task_id row Resource.sandbox request.sandbox_slots
          s.policy.max_sandbox_concurrency
    test not sandbox then give_up task_id now else grant s owner now token task_id row

-- The body of the inner loop; `none` is `continue`.
unfoldable pub try_claim : SchedulerService → String → ℕ → ℕ × TaskRow → Exec (Option TaskClaim)
try_claim s owner now (task_id, row) = do
  snapshot ← gets (admission_snapshot row.project_id)
  test not (evaluate_admission s.policy snapshot (resource_request row)).admitted
      then pure none
      else do
        token ← uuid4
        task ←
            reserve_with_global_cap task_id row.project_id Resource.task 1
              s.policy.max_parallel_tasks
        test not task then pure none else reserve_and_grant s owner now token task_id row

abbrev pub keep_some {ℓ} : {A : Type ℓ} → List (Option A) → List A
keep_some [] = []
keep_some (none ∷ rest) = keep_some rest
keep_some (some a ∷ rest) = a ∷ keep_some rest

unfoldable pub claim_batch : SchedulerService → String → ℕ → ℕ → (ℕ → Bool) → Exec (List TaskClaim)
claim_batch s owner limit now locked = do
  candidates ← gets (λ w. select_tasks is_ready claims_before limit locked w.tasks)
  results ← for_each (by_project candidates) (try_claim s owner now)
  pure (keep_some results)

unfoldable pub claim_ready : SchedulerService → String → ℕ → ℕ → (ℕ → Bool) → Exec (List TaskClaim)
unfolding claim_batch
claim_ready s owner limit now locked =
    test limit == 0 then pure [] else transaction (claim_batch s owner limit now locked)
