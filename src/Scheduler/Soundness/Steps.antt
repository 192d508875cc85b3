-- ===== src/Scheduler/Soundness/Steps.antt =====
-- execution/scheduler/service.py: the steps that its transactions share, and the invariant.
use autonomous_swe.Prelude.{
  ℕ, ◌≡◌, sym, subst, false, Option, none, some, get, is_some, get-remove, ==_refl, Bool-cases, inl,
  inr, arith,
}
use autonomous_swe.Domain.Enums.{TaskStatus}
use autonomous_swe.Persistence.Rows.{TaskRow}
use autonomous_swe.Persistence.Session.{Tables, World, ◌>>=◌}
use autonomous_swe.Persistence.Repository.{in_project, transition_task}
use autonomous_swe.Persistence.Post.{Post, done, Post-weaken}
use autonomous_swe.Persistence.Transition.{Moved, transition_task-Moved}
use autonomous_swe.Scheduler.Policy.{ConcurrencyPolicy}
use autonomous_swe.Scheduler.Reservations.{held_by, held_by-released}
use autonomous_swe.Scheduler.Service.{clean_up}
use autonomous_swe.Scheduler.Invariant.{
  IsSound, IsSoundBut, IsSoundBut-of, IsSound-clear, put_task-IsSoundBut, remove_lease-IsSoundBut,
  released-IsSoundBut, in_flight, flies,
}

abbrev pub Sound : ConcurrencyPolicy → Tables → Type 0
Sound p t = IsSound p t.tasks t.leases t.reservations

abbrev pub SoundBut : ConcurrencyPolicy → ℕ → Tables → Type 0
SoundBut p k t = IsSoundBut p k t.tasks t.leases t.reservations

-- The task has neither a lease nor a reservation.
abbrev pub Clear : ℕ → Tables → Type 0
Clear k t = (get k t.leases ≡ none) × (held_by k t.reservations ≡ 0)

pub found-get :
    (project_id : ℕ) (o : Option TaskRow) {row : TaskRow}
    → in_project project_id o ≡ some row
    → o ≡ some row
found-get project_id none e = e
found-get project_id (some r) e = ground arith

-- A transition keeps the lease and the reservations of every task as they were.
pub Moved-Clear :
    {project_id k version : ℕ} {target : TaskStatus} {w : World} {after : TaskRow} {v : World}
    (m : Moved project_id k version target w after v)
    → Clear k w.tables
    → Clear k v.tables
Moved-Clear {k} m c = subst (Clear k) (sym m.tables) c

module _ {p : ConcurrencyPolicy} where
  pub Sound-done : (k : ℕ) (t : Tables) → SoundBut p k t → Clear k t → Sound p t
  Sound-done k t h c = IsSound-clear k h c.0 c.1

  -- A task that is not in flight is clear.
  pub Clear-grounded :
      (k : ℕ) (t : Tables) → Sound p t → in_flight (get k t.tasks) ≡ false → Clear k t
  Clear-grounded k t h down = elim (Bool-cases (is_some (get k t.leases))) [
    | inl e ↦ absurd (ground (arith, h.leased_flies k e))
    | inr e ↦ (ground arith, h.held_leased k e)
  ]

  module _ {project_id k version : ℕ} {target : TaskStatus} {w : World} {after : TaskRow}
      {v : World} (m : Moved project_id k version target w after v) where
    -- A transition of the task at work leaves the others sound,
    pub Moved-SoundBut : SoundBut p k w.tables → SoundBut p k v.tables
    Moved-SoundBut h = subst (SoundBut p k) (sym m.tables) (put_task-IsSoundBut k after h)

    -- and so keeps the invariant if the task is not in flight.
    pub Moved-Sound : Sound p w.tables → flies m.before.state ≡ false → Sound p v.tables
    Moved-Sound h down = Sound-done k v.tables (Moved-SoundBut (IsSoundBut-of k h)) (
        Moved-Clear m
          (Clear-grounded k w.tables h (rw (found-get project_id (get k w.tasks) m.found) down)))

  pub transition_task-SoundBut :
      (project_id k version : ℕ) (target : TaskStatus) (w : World)
      → SoundBut p k w.tables
      → Post (λ after v. SoundBut p k v.tables) (transition_task project_id k version target w)
  transition_task-SoundBut project_id k version target w h =
      Post-weaken (transition_task-Moved project_id k version target w)
        λ after v m. Moved-SoundBut m h

  -- Releasing what the task holds and deleting its lease ends the work.
  pub clean_up-Clear :
      (k now : ℕ) (w : World)
      → SoundBut p k w.tables
      → Post (λ _ v. SoundBut p k v.tables × Clear k v.tables) (clean_up k now w)
  unfolding clean_up ◌>>=◌
  clean_up-Clear k now w h = done (
    remove_lease-IsSoundBut k (released-IsSoundBut k now h),
    (rw (get-remove, ==_refl k), held_by-released k now w.reservations),
  )

  pub clean_up-Sound :
      (k now : ℕ) (w : World)
      → SoundBut p k w.tables
      → Post (λ _ v. Sound p v.tables) (clean_up k now w)
  clean_up-Sound k now w h =
      Post-weaken (clean_up-Clear k now w h) λ _ v s. Sound-done k v.tables s.0 s.1
