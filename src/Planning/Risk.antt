-- ===== src/Planning/Risk.antt =====
-- `maximum_risk` and `risk_exceeds`, policies/risk/policy_engine.py, with the least risk of each
-- kind of task, its capabilities and its tools, domain/task_policy.py.
use autonomous_swe.Prelude.{
  ℕ, ◌≡◌, ◌≤◌, String, str_eq, Bool, true, false, List, [], ◌∷◌, any, not, ltb, ◌==◌, if◌then◌else◌,
  AllTrue, arith,
}
use autonomous_swe.Domain.Enums.{TaskType, RiskLevel}

-- `_RISK_ORDER`
abbrev pub risk_order : RiskLevel → ℕ
risk_order RiskLevel.low = 0
risk_order RiskLevel.medium = 1
risk_order RiskLevel.high = 2
risk_order RiskLevel.critical = 3

unfoldable pub risk_exceeds : RiskLevel → RiskLevel → Bool
risk_exceeds level ceiling = ltb (risk_order ceiling) (risk_order level)

-- `max` keeps the first of equal items. The list of levels is `first ∷ rest`, since `max` of
-- nothing raises and no caller passes nothing.
unfoldable pub maximum_risk : RiskLevel → List RiskLevel → RiskLevel
unfolding risk_exceeds
maximum_risk first [] = first
maximum_risk first (level ∷ rest) =
    maximum_risk (if risk_exceeds level first then level else first) rest

abbrev pub mem_str : String → List String → Bool
mem_str a names = any (str_eq a) names

abbrev pub task_capability_names : TaskType → List String
task_capability_names TaskType.research = "research" ∷ "researcher" ∷ "analysis" ∷ []
task_capability_names TaskType.implementation = "implementation" ∷ "coder" ∷ []
task_capability_names TaskType.test = "test" ∷ "testing" ∷ "tester" ∷ []
task_capability_names TaskType.refactor = "refactor" ∷ "refactoring" ∷ []
task_capability_names TaskType.documentation = "documentation" ∷ []
task_capability_names TaskType.validation = "validation" ∷ []

abbrev pub task_required_tools : TaskType → List String
task_required_tools TaskType.research = "read_file" ∷ "search_code" ∷ []
task_required_tools TaskType.validation = "read_file" ∷ "run_tests" ∷ []
task_required_tools _ = "read_file" ∷ "apply_patch" ∷ "run_tests" ∷ []

unfoldable pub task_minimum_risk : TaskType → RiskLevel
task_minimum_risk TaskType.research = RiskLevel.low
task_minimum_risk _ = RiskLevel.medium

-- The dictionary in its order, as the loop of `capabilities_for_assignment` goes through it.
abbrev task_types : List TaskType
task_types =
    TaskType.research ∷ TaskType.implementation ∷ TaskType.test ∷ TaskType.refactor
    ∷ TaskType.documentation ∷ TaskType.validation ∷ []

abbrev grants : TaskType → List String
grants TaskType.research = "repository-read" ∷ []
grants TaskType.validation = "repository-read" ∷ "verification" ∷ []
grants _ = "repository-read" ∷ "repository-write" ∷ "verification" ∷ []

capabilities_from : List TaskType → String → List String
capabilities_from [] assignment = assignment ∷ []
capabilities_from (kind ∷ rest) assignment =
    if mem_str assignment (task_capability_names kind)
    then grants kind
    else capabilities_from rest assignment

unfoldable pub capabilities_for_assignment : String → List String
unfolding capabilities_from
capabilities_for_assignment assignment = capabilities_from task_types assignment

maximum_risk-first :
    (first : RiskLevel) (rest : List RiskLevel)
    → risk_order first ≤ risk_order (maximum_risk first rest)
unfolding maximum_risk
maximum_risk-first first [] = omega arith
maximum_risk-first first (level ∷ rest) =
    ground (arith, maximum_risk-first (if risk_exceeds level first then level else first) rest)

maximum_risk-rest :
    (first : RiskLevel) (rest : List RiskLevel)
    → AllTrue (λ level. not (risk_exceeds level (maximum_risk first rest))) rest
unfolding maximum_risk
maximum_risk-rest first [] = tt
maximum_risk-rest first (level ∷ rest) =
    let taken = if risk_exceeds level first then level else first in
    (ground (arith, maximum_risk-first taken rest), maximum_risk-rest taken rest)

-- Two risks of one order.
abbrev pub risk_is : RiskLevel → RiskLevel → Bool
risk_is a b = risk_order a == risk_order b

widen :
    (m first level : RiskLevel) (b : Bool) (rest : List RiskLevel)
    → any (risk_is m) ((if b then level else first) ∷ rest) ≡ true
    → any (risk_is m) (first ∷ level ∷ rest) ≡ true
widen m first level true rest h = ground (arith, h)
widen m first level false rest h = ground (arith, h)

maximum_risk-one :
    (first : RiskLevel) (rest : List RiskLevel)
    → any (risk_is (maximum_risk first rest)) (first ∷ rest) ≡ true
unfolding maximum_risk
maximum_risk-one first [] = ground arith
maximum_risk-one first (level ∷ rest) =
    widen (maximum_risk first (level ∷ rest)) first level (risk_exceeds level first) rest
      (maximum_risk-one (if risk_exceeds level first then level else first) rest)

-- None of the risks exceeds their maximum, and the maximum is of the order of one of them.
pub maximum_risk-bounds :
    (first : RiskLevel) (rest : List RiskLevel)
    → AllTrue (λ level. not (risk_exceeds level (maximum_risk first rest))) (first ∷ rest)
      × (any (risk_is (maximum_risk first rest)) (first ∷ rest) ≡ true)
unfolding risk_exceeds
maximum_risk-bounds first rest = (
  (ground (arith, maximum_risk-first first rest), maximum_risk-rest first rest),
  maximum_risk-one first rest,
)
