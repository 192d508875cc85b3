-- ===== src/Scheduler/Soundness/Claims.antt =====
-- `claim_ready`, execution/scheduler/service.py, and the invariant.
use autonomous_swe.Prelude.{
  ℕ, ◌+◌, String, ◌≡◌, refl, sym, subst, ap, Bool, true, false, get, put, is_some, Table, get-put,
  ==_refl, leb, leb→le, Bool-cases, inl, inr, arith,
}
use autonomous_swe.Domain.Enums.{TaskStatus}
use autonomous_swe.Domain.Transitions.{require_task_transition}
use autonomous_swe.Persistence.Rows.{TaskRow, LeaseRow, Resource}
use autonomous_swe.Persistence.Session.{Tables, World, utc_now, uuid4, pure, ◌>>=◌}
use autonomous_swe.Persistence.Repository.{create_lease}
use autonomous_swe.Persistence.Transition.{transition_task-Moved}
use autonomous_swe.Persistence.Post.{
  Post, done, Post-pure, Post-gets, Post-weaken, Post-bind, Post-if, Post-guard, transaction_keeps,
  Post-for_each, keeps_test,
}
use autonomous_swe.Scheduler.Policy.{ConcurrencyPolicy}
use autonomous_swe.Scheduler.Reservations.{
  active_units, reserve_with_global_cap, release_reservations, held_by-released,
}
use autonomous_swe.Scheduler.Service.{SchedulerService}
use autonomous_swe.Scheduler.Claiming.{
  grant, reserve_slots, give_up, reserve_and_grant, try_claim, claim_batch, claim_ready,
}
use autonomous_swe.Scheduler.Invariant.{
  ceiling, in_flight, IsSoundBut-of, IsSound-leased, IsSound-clear, put_lease-IsSoundBut,
  reserve-IsSoundBut, released-IsSoundBut,
}
use autonomous_swe.Scheduler.Soundness.Steps.{Sound, SoundBut, Moved-SoundBut}

-- The one state from which a task is leased.
leased_from :
    (s : TaskStatus) → require_task_transition s TaskStatus.leased ≡ true → s ≡ TaskStatus.ready
unfolding require_task_transition
leased_from TaskStatus.ready h = refl
leased_from TaskStatus.pending h = ground arith
leased_from TaskStatus.leased h = ground arith
leased_from TaskStatus.running h = ground arith
leased_from TaskStatus.blocked h = ground arith
leased_from TaskStatus.completed h = ground arith
leased_from TaskStatus.failed h = ground arith
leased_from TaskStatus.cancelled h = ground arith

put-held :
    (k : ℕ) (l : LeaseRow) (leases : Table LeaseRow) → is_some (get k (put k l leases)) ≡ true
put-held k l leases = rw (get-put, ==_refl k)

-- The task at work has a lease only if it is in flight.
abbrev Working : ConcurrencyPolicy → ℕ → Tables → Type 0
Working p k t =
    SoundBut p k t × (is_some (get k t.leases) ≡ true → in_flight (get k t.tasks) ≡ true)

module _ {p : ConcurrencyPolicy} where
  -- A reservation is within the ceiling, or it is not made.
  reserve-Working :
      (k project_id : ℕ) (resource : Resource) (units cap : ℕ) (w : World)
      → cap ≡ ceiling p resource
      → Working p k w.tables
      → Post
          (λ made v. Working p k v.tables × (made ≡ false → v.tables ≡ w.tables))
          (reserve_with_global_cap k project_id resource units cap w)
  unfolding reserve_with_global_cap utc_now ◌>>=◌
  reserve-Working k project_id resource units cap w e h =
      elim (Bool-cases (leb (active_units resource w.reservations + units) cap)) [
        | inl room ↦ rw room (
            done (
              (reserve-IsSoundBut k _ h.0 refl (ground (arith, e, leb→le _ _ room)), h.1),
              λ no. absurd (ground arith),
            ))
        | inr full ↦ rw full (done (h, λ no. refl))
      ]

  slots-Working :
      (k : ℕ) (row : TaskRow) (resource : Resource) (slots cap : ℕ) (w : World)
      → cap ≡ ceiling p resource
      → Working p k w.tables
      → Post (λ _ v. Working p k v.tables) (reserve_slots k row resource slots cap w)
  unfolding reserve_slots
  slots-Working k row resource slots cap w e h =
      Post-if _ _ _ w (λ _. Post-pure _ w h)
        (λ _. Post-weaken (reserve-Working k row.project_id resource slots cap w e h) λ _ v s. s.0)

  -- Giving up returns the reservations.
  give_up-Sound :
      (k now : ℕ) (w : World)
      → Working p k w.tables
      → Post (λ _ v. Sound p v.tables) (give_up k now w)
  unfolding release_reservations ◌>>=◌
  give_up-Sound k now w h =
      let free = released-IsSoundBut k now h.0 in
      done elim (Bool-cases (is_some (get k w.leases))) [
        | inl held ↦ IsSound-leased k free (h.1 held) held
        | inr bare ↦ IsSound-clear k free (ground arith) (held_by-released k now w.reservations)
      ]

  lease-Sound :
      (k : ℕ) (owner : String) (token expires_at : ℕ) (w : World)
      → SoundBut p k w.tables
      → in_flight (get k w.tasks) ≡ true
      → Post (λ _ v. Sound p v.tables) (create_lease k owner token expires_at w)
  unfolding create_lease
  lease-Sound k owner token expires_at w h up = Post-gets _ _ w (
      Post-guard _ _ _ w λ _.
        unfold utc_now ◌>>=◌ in
        done (IsSound-leased k (put_lease-IsSoundBut k _ h) up (put-held k _ w.leases)))

  grant-Sound :
      (s : SchedulerService) (owner : String) (now token k : ℕ) (row : TaskRow) (w : World)
      → Working p k w.tables
      → Post (λ _ v. Sound p v.tables) (grant s owner now token k row w)
  unfolding grant
  grant-Sound s owner now token k row w h =
      Post-bind _ _ w (transition_task-Moved row.project_id k row.version TaskStatus.leased w)
        λ after v m.
          Post-bind _ _ v
            (lease-Sound k owner token _ v (Moved-SoundBut m h.0)
              (rw (m.tables, get-put, ==_refl k, m.moved)))
            λ _ u j. unfold ◌>>=◌ in done j

  reserve_and_grant-Sound :
      (s : SchedulerService) (owner : String) (now token k : ℕ) (row : TaskRow) (w : World)
      → s.policy ≡ p
      → Working p k w.tables
      → Post (λ _ v. Sound p v.tables) (reserve_and_grant s owner now token k row w)
  unfolding reserve_and_grant
  reserve_and_grant-Sound s owner now token k row w e h =
      Post-bind _ _ w
        (slots-Working k row Resource.model _ _ w (ap (λ q. q.max_model_concurrency) e) h)
        λ model v g.
          Post-if _ _ _ v (λ _. give_up-Sound k now v g)
            λ _.
              Post-bind _ _ v
                (slots-Working k row Resource.sandbox _ _ v (ap (λ q. q.max_sandbox_concurrency) e)
                  g)
                λ sandbox u j.
                  Post-if _ _ _ u (λ _. give_up-Sound k now u j)
                    λ _. grant-Sound s owner now token k row u j

  uuid4-Sound : (w : World) → Sound p w.tables → Post (λ _ v. Sound p v.tables) (uuid4 w)
  unfolding uuid4
  uuid4-Sound w h = done h

  try_claim-Sound :
      (s : SchedulerService) (owner : String) (now : ℕ) (candidate : ℕ × TaskRow) (w : World)
      → s.policy ≡ p
      → Sound p w.tables
      → Post (λ _ v. Sound p v.tables) (try_claim s owner now candidate w)
  unfolding try_claim
  try_claim-Sound s owner now (k, row) w e h = Post-gets _ _ w (
      Post-if _ _ _ w (λ _. Post-pure _ w h)
        λ _. Post-bind _ _ w (uuid4-Sound w h) λ token v i.
          Post-bind _ _ v
            (reserve-Working k row.project_id Resource.task 1 _ v (ap (λ q. q.max_parallel_tasks) e)
              (IsSoundBut-of k i, i.leased_flies k))
            λ made u j.
              Post-if _ _ _ u
                (λ no. Post-pure _ u (subst (Sound p) (sym (j.1 (ground (arith, no)))) i))
                λ _. reserve_and_grant-Sound s owner now token k row u e j.0)

-- A batch of claims, under the policy of the service.
pub claim_ready-Sound :
    (s : SchedulerService) (owner : String) (limit now : ℕ) (locked : ℕ → Bool) (w : World)
    → Sound s.policy w.tables
    → Sound s.policy (claim_ready s owner limit now locked w).1.tables
unfolding claim_ready claim_batch pure
claim_ready-Sound s owner limit now locked w h = keeps_test (Sound s.policy) _ _ _ w h (
    transaction_keeps (Sound s.policy) _ w h (
      Post-gets _ _ w (
        Post-bind _ _ w
          (Post-for_each (λ v. Sound s.policy v.tables) (try_claim s owner now)
            (λ c v i. try_claim-Sound s owner now c v refl i) _ w h)
          λ _ v i. Post-pure _ v i)))
