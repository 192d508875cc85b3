-- ===== src/Examples/ToolWitnesses.antt =====
-- Tests of the risk of tool calls, policies/risk/policy_engine.py, and its theorems at concrete
-- values.
use autonomous_swe.Prelude.{
  ℕ, ◌≡◌, ◌+◌, refl, true, false, not, ◌&&◌, List, [], ◌∷◌, map, leb, if◌then◌else◌, max,
}
use autonomous_swe.Domain.Enums.{RiskLevel}
use autonomous_swe.Planning.Paths.{codes, is_dot, is_empty, normalized, split, parts}
use autonomous_swe.Planning.Risk.{risk_order, maximum_risk, risk_exceeds}
use autonomous_swe.Planning.ToolRisk.{
  ArgumentValue, ToolRiskPolicy, ToolCall, default_protected_paths, strip, normpath, clean,
  is_protected_path, argument_paths, touches_protected, levels, calculate,
}
use autonomous_swe.Planning.ToolRisk.Level.{asked_order, calculate-order}
use autonomous_swe.Planning.ToolRisk.Protected.{has_target, is_protected_path-contains}

-- `casefold` on the letters of ASCII
abbrev lower : List ℕ → List ℕ
lower text = map (λ c. if leb b'A' c && leb c b'Z' then c + 32 else c) text

abbrev policy : ToolRiskPolicy
policy = record { protected_paths = default_protected_paths; repository_floor = RiskLevel.low }

abbrev hidden : List ℕ
hidden = codes "src/../.git//./config"

abbrev call : ToolCall
call = record {
  base = RiskLevel.low;
  tool_name = codes "apply_patch";
  arguments = (codes "Path", ArgumentValue.text hidden) ∷ [];
  side_effect = codes "local";
}

clean-hidden : clean hidden ≡ codes ".git/config"
unfolding clean normpath strip normalized split
clean-hidden = refl

root_is_open : is_protected_path (codes "./") default_protected_paths ≡ false
unfolding is_protected_path clean normpath strip normalized split parts
root_is_open = refl

hidden_is_protected : is_protected_path hidden default_protected_paths ≡ true
unfolding is_protected_path clean normpath strip normalized split parts
hidden_is_protected = refl

calculate-call : calculate lower policy call ≡ RiskLevel.high
unfolding calculate levels touches_protected argument_paths is_protected_path clean normpath strip
    normalized split parts maximum_risk risk_exceeds
calculate-call = refl

protected_example : is_protected_path hidden default_protected_paths ≡ (
    not (is_empty (clean hidden))
    && not (is_dot (clean hidden))
    && has_target (clean hidden) default_protected_paths)
protected_example = is_protected_path-contains hidden default_protected_paths

level_example :
    risk_order (calculate lower policy call)
    ≡ max
        (max (risk_order call.base) (risk_order policy.repository_floor))
        (asked_order lower policy call)
level_example = calculate-order lower policy call
