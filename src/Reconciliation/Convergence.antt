-- ===== src/Reconciliation/Convergence.antt =====
-- `reconcile`, execution/scheduler/reconciliation.py: several runs of it on one task.
use autonomous_swe.Prelude.{
  ℕ, ◌≡◌, refl, ap, ◌∙◌, Bool, false, Option, none, some, get, arith, ◌&&◌, if◌then◌else◌,
  Option-cases, inl, inr,
}
use autonomous_swe.Domain.Enums.{TaskStatus, GraphExecutionState}
use autonomous_swe.Domain.Equality.{task_is}
use autonomous_swe.Domain.Transitions.{require_task_transition}
use autonomous_swe.Persistence.Rows.{TaskRow, RunRow, GraphExecutionRow, LeaseRow, Action}
use autonomous_swe.Persistence.Session.{World, Result, return}
use autonomous_swe.Persistence.Repository.{in_project}
use autonomous_swe.Persistence.Total.{Total, finished}
use autonomous_swe.Reconciliation.Decision.{
  decide, decide_states, decide_terminal, decide_running, mismatched, lapsed,
}
use autonomous_swe.Reconciliation.Service.{
  decision, reconcile, is_noop, quarantine_target, graph_state,
}
use autonomous_swe.Reconciliation.Legality.{target_of}
use autonomous_swe.Reconciliation.Outcome.{Reconciled, graph_after, reconcile-Total}

-- The state of the graph execution that an action leaves.
abbrev graph_target : Action → GraphExecutionState → GraphExecutionState
graph_target Action.domain_terminal_wins g = GraphExecutionState.cancelled
graph_target Action.quarantine g = GraphExecutionState.needs_reconciliation
graph_target _ g = g

abbrev lapsed_after : Action → Bool → Bool
lapsed_after a expired = is_noop a && expired

-- Whatever the four facts that a decision depends on, the third one in a row is NOOP.
third_decision :
    (s : TaskStatus) (g : GraphExecutionState) (foreign expired : Bool)
    → let a = decide_states s g foreign expired in
      let s2 = target_of a s in
      let g2 = graph_target a g in
      let e2 = lapsed_after a expired in
      let b = decide_states s2 g2 foreign e2 in
      decide_states (target_of b s2) (graph_target b g2) foreign (lapsed_after b e2) ≡ Action.noop
unfolding decide_states decide_terminal decide_running target_of require_task_transition
    quarantine_target
third_decision s g foreign expired = ground arith

-- A decision as a function of the facts it depends on; none is for no graph execution.
abbrev Facts : Type 0
Facts = TaskStatus × Option GraphExecutionState × Bool × Bool

decide_facts : Facts → Action
unfolding decide
decide_facts (s, none, f, e) =
    if task_is s TaskStatus.running then Action.requeue_missing_checkpoint else Action.noop
decide_facts (s, some g, f, e) = decide_states s g f e

facts_after : Facts → Facts
facts_after (s, none, f, e) = (
  target_of (decide_facts (s, none, f, e)) s,
  none,
  f,
  lapsed_after (decide_facts (s, none, f, e)) e,
)
facts_after (s, some g, f, e) =
    let a = decide_states s g f e in (target_of a s, some (graph_target a g), f, lapsed_after a e)

third_facts : (x : Facts) → decide_facts (facts_after (facts_after x)) ≡ Action.noop
unfolding decide_facts facts_after target_of
third_facts (s, none, f, e) = ground arith
third_facts (s, some g, f, e) = third_decision s g f e

foreign : TaskRow → Option RunRow → Option GraphExecutionRow → Bool
foreign task run none = false
foreign task run (some g) = mismatched task run g

facts_of : ℕ → TaskRow → ℕ → World → Facts
unfolding foreign
facts_of k task now w = (
  task.state,
  graph_state (get k w.graphs),
  foreign task (get task.run_id w.runs) (get k w.graphs),
  lapsed (get k w.leases) now,
)

decision-facts :
    (k : ℕ) (task : TaskRow) (now : ℕ) (w : World)
    → decision k task now w ≡ decide_facts (facts_of k task now w)
unfolding decision decide_facts facts_of decide
decision-facts k task now w = elim (Option-cases (get k w.graphs)) [
  | inl e ↦ rw e (ground arith)
  | inr (g, e) ↦ rw e refl
]

graph_state-after :
    (a : Action) (now : ℕ) (g : GraphExecutionRow)
    → graph_state (graph_after a now (some g)) ≡ some (graph_target a g.state)
graph_state-after a now g = ground arith

graph_state-none : (a : Action) (now : ℕ) → graph_state (graph_after a now none) ≡ none
graph_state-none a now = ground arith

foreign-after :
    (task after : TaskRow) (run : Option RunRow) (a : Action) (now : ℕ)
    (o : Option GraphExecutionRow)
    → after.run_id ≡ task.run_id
    → after.repository_id ≡ task.repository_id
    → foreign after run (graph_after a now o) ≡ foreign task run o
unfolding foreign mismatched
foreign-after task after none a now none e f = ground arith
foreign-after task after none a now (some g) e f = ground arith
foreign-after task after (some run) a now none e f = ground arith
foreign-after task after (some run) a now (some g) e f = ground arith

lapsed-after :
    (a : Action) (l : Option LeaseRow) (now : ℕ)
    → lapsed (if is_noop a then l else none) now ≡ lapsed_after a (lapsed l now)
unfolding lapsed
lapsed-after a l now = ground arith

facts-equal :
    {s s' : TaskStatus} {g g' : Option GraphExecutionState} {f f' e e' : Bool}
    → s ≡ s'
    → g ≡ g'
    → f ≡ f'
    → e ≡ e'
    → Path Facts (s, g, f, e) (s', g', f', e')
facts-equal i j k l = cc (i, j, k, l)

-- The facts after an action as a function of the facts before it, by the row of the graph
-- execution.
facts-graph :
    (a : Action) (now : ℕ) (s : TaskStatus) (o : Option GraphExecutionRow) (f e : Bool)
    → a ≡ decide_facts (s, graph_state o, f, e)
    → (target_of a s, graph_state (graph_after a now o), f, lapsed_after a e)
      ≡ facts_after (s, graph_state o, f, e)
unfolding facts_after decide_facts
facts-graph a now s none f e h =
    ap (λ b. (target_of b s, graph_state (graph_after b now none), f, lapsed_after b e)) h
    ∙ facts-equal refl (graph_state-none _ now) refl refl
facts-graph a now s (some g) f e h =
    ap (λ b. (target_of b s, graph_state (graph_after b now (some g)), f, lapsed_after b e)) h
    ∙ facts-equal refl (graph_state-after _ now g) refl refl

facts-Reconciled :
    {k now : ℕ} {task : TaskRow} {w : World} {a : Action} {v : World}
    (r : Reconciled k now task w a v)
    → a ≡ decide_facts (facts_of k task now w)
    → facts_of k r.task_stands.after now v ≡ facts_after (facts_of k task now w)
unfolding facts_of
facts-Reconciled {k} {now} {task} {w} {a} {v} r h =
    facts-equal r.task_stands.placed (ap graph_state r.graph_stands)
      (ap (foreign r.task_stands.after _) r.graph_stands
        ∙ ap (λ run. foreign r.task_stands.after run (graph_after a now (get k w.graphs)))
            (ap (get r.task_stands.after.run_id) r.runs_stay
              ∙ ap (λ i. get i w.runs) r.task_stands.owned.0)
        ∙ foreign-after task r.task_stands.after (get task.run_id w.runs) a now (get k w.graphs)
            r.task_stands.owned.0 r.task_stands.owned.1)
      (ap (λ l. lapsed l now) r.lease_gone ∙ lapsed-after a (get k w.leases) now)
    ∙ facts-graph a now task.state (get k w.graphs) _ _ h

-- The task that a world has after `reconcile`.
record After (project_id k now : ℕ) (x : Facts) (v : World) : Type 0 where
  task : TaskRow
  found : in_project project_id (get k v.tasks) ≡ some task
  facts : facts_of k task now v ≡ x

in_project-after :
    (project_id : ℕ) (o : Option TaskRow) (task after : TaskRow) (v : Option TaskRow)
    → in_project project_id o ≡ some task
    → v ≡ some after
    → after.project_id ≡ task.project_id
    → in_project project_id v ≡ some after
in_project-after project_id none task after v h e f = absurd (ground (arith, h))
in_project-after project_id (some r) task after v h e f = rw e (ground (arith, h, f))

reconcile-After :
    (project_id k now : ℕ) (x : Facts) (w : World)
    → After project_id k now x w
    → (let o = reconcile project_id k now w in
        (o.0 ≡ return (decide_facts x)) × After project_id k now (facts_after x) o.1)
reconcile-After project_id k now x w h = go (reconcile-Total project_id k now h.task w h.found)
  where
    go :
        {o : Result Action × World}
        → Total (λ a v. (a ≡ decision k h.task now w) × Reconciled k now h.task w a v) o
        → (o.0 ≡ return (decide_facts x)) × After project_id k now (facts_after x) o.1
    go (finished {a} {w = v} (e, r)) =
        let same = e ∙ decision-facts k h.task now w in
        (
          ap return (same ∙ ap decide_facts h.facts),
          record {
            task = r.task_stands.after;
            found =
                in_project-after project_id (get k w.tasks) h.task r.task_stands.after _ h.found
                  r.task_stands.stored r.task_stands.owned.2;
            facts = facts-Reconciled r same ∙ ap facts_after h.facts;
          },
        )

-- Two runs of `reconcile` settle a task: the third one, at the same time and with nothing in
-- between, returns NOOP, whatever the task, its run, its graph execution and its lease were.
pub reconcile_twice-settles :
    (project_id k now : ℕ) (task : TaskRow) (w : World)
    → in_project project_id (get k w.tasks) ≡ some task
    → (let v = (reconcile project_id k now w).1 in
        let u = (reconcile project_id k now v).1 in (reconcile project_id k now u).0)
      ≡ return Action.noop
reconcile_twice-settles project_id k now task w found =
    let first =
      reconcile-After project_id k now _ w (record { task = task; found = found; facts = refl }) in
    let second = reconcile-After project_id k now _ _ first.1 in
    let third = reconcile-After project_id k now _ _ second.1 in third.0 ∙ ap return (third_facts _)
