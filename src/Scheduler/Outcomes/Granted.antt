-- ===== src/Scheduler/Outcomes/Granted.antt =====
-- `claim_ready`, execution/scheduler/service.py: the leases behind its claims.
use autonomous_swe.Prelude.{
  ℕ, ◌+◌, String, ◌≡◌, refl, ◌∙◌, ap, Bool, false, Option, none, some, List, [], ◌∷◌, Table, get,
  put, is_some, get-put, ==_refl, ==→eq, ◌==◌, leb, Bool-cases, inl, inr, arith,
}
use autonomous_swe.Domain.Enums.{TaskStatus}
use autonomous_swe.Persistence.Rows.{TaskRow, LeaseRow, Resource}
use autonomous_swe.Persistence.Session.{World, utc_now, uuid4, for_each, ◌>>=◌}
use autonomous_swe.Persistence.Repository.{create_lease}
use autonomous_swe.Persistence.Transition.{transition_task-Moved}
use autonomous_swe.Persistence.Post.{
  Post, done, Post-weaken, Post-pure, Post-gets, Post-bind, Post-guard, Post-if, Post-transaction,
}
use autonomous_swe.Scheduler.Reservations.{
  active_units, reserve_with_global_cap, release_reservations,
}
use autonomous_swe.Scheduler.Service.{SchedulerService}
use autonomous_swe.Scheduler.Claiming.{
  TaskClaim, grant, reserve_slots, give_up, reserve_and_grant, try_claim, keep_some, claim_batch,
  claim_ready,
}

-- No lease is lost or changed.
abbrev Keeps : World → World → Type 0
Keeps w v = (j : ℕ) (l : LeaseRow) → get j w.leases ≡ some l → get j v.leases ≡ some l

-- The lease of a claim stands, with its owner, its token and its time.
pub record Granted (c : TaskClaim) (v : World) : Type 0 where
  pub lease : LeaseRow
  pub stands : get c.task_id v.leases ≡ some lease
  pub owned : lease.owner ≡ c.owner
  pub fenced : lease.token ≡ c.token
  pub timed : lease.expires_at ≡ c.expires_at

abbrev GrantedIf : Option TaskClaim → World → Type 0
GrantedIf none v = Unit
GrantedIf (some c) v = Granted c v

abbrev pub AllGranted : List TaskClaim → World → Type 0
AllGranted [] v = Unit
AllGranted (c ∷ cs) v = Granted c v × AllGranted cs v

Granted-kept : (c : TaskClaim) (w v : World) → Keeps w v → Granted c w → Granted c v
Granted-kept c w v keeps g = record {
  lease = g.lease;
  stands = keeps c.task_id g.lease g.stands;
  owned = g.owned;
  fenced = g.fenced;
  timed = g.timed;
}

-- The leases stay as they are.
abbrev Same : World → World → Type 0
Same w v = v.leases ≡ w.leases

Same-Keeps : (w v : World) → Same w v → Keeps w v
Same-Keeps w v same j l e = ap (get j) same ∙ e

reserve-Same :
    (k project_id : ℕ) (resource : Resource) (units cap : ℕ) (w : World)
    → Post (λ _ v. Same w v) (reserve_with_global_cap k project_id resource units cap w)
unfolding reserve_with_global_cap utc_now ◌>>=◌
reserve-Same k project_id resource units cap w =
    elim (Bool-cases (leb (active_units resource w.reservations + units) cap)) [
      | inl room ↦ rw room (done refl)
      | inr full ↦ rw full (done refl)
    ]

slots-Same :
    (k : ℕ) (row : TaskRow) (resource : Resource) (slots cap : ℕ) (w : World)
    → Post (λ _ v. Same w v) (reserve_slots k row resource slots cap w)
unfolding reserve_slots
slots-Same k row resource slots cap w =
    Post-if _ _ _ w (λ _. Post-pure _ w refl)
      (λ _. reserve-Same k row.project_id resource slots cap w)

give_up-Same : (k now : ℕ) (w : World) → Post (λ o v. (o ≡ none) × Same w v) (give_up k now w)
unfolding release_reservations ◌>>=◌
give_up-Same k now w = done (refl, refl)

-- A new lease is for a task that had none.
put_new :
    (k : ℕ) (l : LeaseRow) (t : Table LeaseRow) (j : ℕ) (m : LeaseRow)
    → is_some (get k t) ≡ false
    → get j t ≡ some m
    → get j (put k l t) ≡ some m
put_new k l t j m bare e = elim (Bool-cases (k == j)) [
  | inl same ↦ absurd (ground (arith, bare, e, ap (λ i. get i t) (==→eq k j same)))
  | inr other ↦ rw (get-put, other) e
]

put_there : (k : ℕ) (l : LeaseRow) (t : Table LeaseRow) → get k (put k l t) ≡ some l
put_there k l t = rw (get-put, ==_refl k)

create_lease-Granted :
    (k : ℕ) (owner : String) (token expires_at : ℕ) (w : World)
    → Post
        (λ _ v.
          Keeps w v
          × ((l : LeaseRow) × (get k v.leases ≡ some l)
              × (l.owner ≡ owner)
              × (l.token ≡ token)
              × (l.expires_at ≡ expires_at)))
        (create_lease k owner token expires_at w)
unfolding create_lease
create_lease-Granted k owner token expires_at w = Post-gets _ _ w (
    Post-guard _ _ _ w λ bare.
      unfold utc_now ◌>>=◌ in
      done (
        (λ j l e. put_new k _ w.leases j l (ground (arith, bare)) e),
        (_, put_there k _ w.leases, refl, refl, refl),
      ))

Granted-of :
    (c : TaskClaim) (v : World) (l : LeaseRow)
    → get c.task_id v.leases ≡ some l
    → l.owner ≡ c.owner
    → l.token ≡ c.token
    → l.expires_at ≡ c.expires_at
    → Granted c v
Granted-of c v l a b d e = record { lease = l; stands = a; owned = b; fenced = d; timed = e }

grant-Granted :
    (s : SchedulerService) (owner : String) (now token k : ℕ) (row : TaskRow) (w : World)
    → Post (λ o v. Keeps w v × GrantedIf o v) (grant s owner now token k row w)
unfolding grant
grant-Granted s owner now token k row w =
    Post-bind _ _ w (transition_task-Moved row.project_id k row.version TaskStatus.leased w)
      λ after v m.
        Post-bind _ _ v (create_lease-Granted k owner token (now + s.lease_ttl) v)
          λ _ u (keeps, (l, stands, owned, fenced, timed)).
            unfold ◌>>=◌ in
            done (
              (λ j x e. keeps j x (Same-Keeps w v (ap (λ t. t.leases) m.tables) j x e)),
              Granted-of _ _ l stands owned fenced timed,
            )

given_up :
    (k now : ℕ) (w v : World) → Same w v → Post (λ o u. Keeps w u × GrantedIf o u) (give_up k now v)
given_up k now w v same =
    Post-weaken (give_up-Same k now v)
      λ o u (nothing, still). (Same-Keeps w u (still ∙ same), nothing_granted o u nothing)
  where
    nothing_granted : (o : Option TaskClaim) (u : World) → o ≡ none → GrantedIf o u
    nothing_granted none u e = tt
    nothing_granted (some c) u e = absurd (ground (arith, e))

reserve_and_grant-Granted :
    (s : SchedulerService) (owner : String) (now token k : ℕ) (row : TaskRow) (w : World)
    → Post (λ o v. Keeps w v × GrantedIf o v) (reserve_and_grant s owner now token k row w)
unfolding reserve_and_grant
reserve_and_grant-Granted s owner now token k row w =
    Post-bind _ _ w (slots-Same k row Resource.model _ _ w) λ model v first.
      Post-if _ _ _ v (λ _. given_up k now w v first)
        λ _. Post-bind _ _ v (slots-Same k row Resource.sandbox _ _ v) λ sandbox u second.
          Post-if _ _ _ u (λ _. given_up k now w u (second ∙ first))
            λ _.
              Post-weaken (grant-Granted s owner now token k row u)
                λ o t (keeps, g). ((λ j l e. keeps j l (Same-Keeps w u (second ∙ first) j l e)), g)

uuid4-Same : (w : World) → Post (λ _ v. Same w v) (uuid4 w)
unfolding uuid4
uuid4-Same w = done refl

try_claim-Granted :
    (s : SchedulerService) (owner : String) (now : ℕ) (candidate : ℕ × TaskRow) (w : World)
    → Post (λ o v. Keeps w v × GrantedIf o v) (try_claim s owner now candidate w)
unfolding try_claim
try_claim-Granted s owner now (k, row) w = Post-gets _ _ w (
    Post-if _ _ _ w (λ _. Post-pure _ w ((λ j l e. e), tt))
      λ _. Post-bind _ _ w (uuid4-Same w) λ token v first.
        Post-bind _ _ v (reserve-Same k row.project_id Resource.task 1 _ v) λ made u second.
          Post-if _ _ _ u (λ _. Post-pure _ u (Same-Keeps w u (second ∙ first), tt))
            λ _.
              Post-weaken (reserve_and_grant-Granted s owner now token k row u)
                λ o t (keeps, g). ((λ j l e. keeps j l (Same-Keeps w u (second ∙ first) j l e)), g))

one_more_granted :
    (o : Option TaskClaim) (cs : List (Option TaskClaim)) (v u : World)
    → GrantedIf o v
    → Keeps v u
    → AllGranted (keep_some cs) u
    → AllGranted (keep_some (o ∷ cs)) u
one_more_granted none cs v u g keeps all = all
one_more_granted (some c) cs v u g keeps all = (Granted-kept c v u keeps g, all)

claims-Granted :
    (s : SchedulerService) (owner : String) (now : ℕ) (candidates : Table TaskRow) (w : World)
    → Post
        (λ cs v. Keeps w v × AllGranted (keep_some cs) v)
        (for_each candidates (try_claim s owner now) w)
unfolding for_each
claims-Granted s owner now [] w = Post-pure _ w ((λ j l e. e), tt)
claims-Granted s owner now (x ∷ xs) w =
    Post-bind _ _ w (try_claim-Granted s owner now x w) λ o v (keeps, g).
      Post-bind _ _ v (claims-Granted s owner now xs v) λ cs u (still, all).
        Post-pure _ u ((λ j l e. still j l (keeps j l e)), one_more_granted o cs v u g still all)

-- Every claim that `claim_ready` returns is backed when it returns: the table has a lease for its
-- task with the claim's owner, token and time of expiry.
pub claim_ready-Granted :
    (s : SchedulerService) (owner : String) (limit now : ℕ) (locked : ℕ → Bool) (w : World)
    → Post AllGranted (claim_ready s owner limit now locked w)
unfolding claim_ready claim_batch
claim_ready-Granted s owner limit now locked w =
    Post-if _ _ _ w (λ _. Post-pure _ w tt)
      λ _. Post-transaction _ w (
        Post-gets _ _ w
          (Post-bind _ _ w (claims-Granted s owner now _ w) λ cs v (keeps, all). Post-pure _ v all))
