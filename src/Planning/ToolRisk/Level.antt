-- ===== src/Planning/ToolRisk/Level.antt =====
-- The level that `ToolRiskPolicy.calculate` gives, policies/risk/policy_engine.py, as one maximum.
use autonomous_swe.Prelude.{
  ℕ, ◌≡◌, refl, ap, ◌∙◌, Bool, true, false, ◌||◌, List, [], ◌∷◌, ◌++◌, if◌then◌else◌, max, arith,
}
use autonomous_swe.Domain.Enums.{RiskLevel}
use autonomous_swe.Planning.Paths.{codes}
use autonomous_swe.Planning.Risk.{risk_order, risk_exceeds, maximum_risk}
use autonomous_swe.Planning.ToolRisk.{
  same_text, ToolRiskPolicy, ToolCall, touches_protected, name_has, removing, publishing, high_if,
  levels, calculate,
}

-- The greatest order among those of a list and a first one.
abbrev pub peak : ℕ → List RiskLevel → ℕ
peak n [] = n
peak n (level ∷ rest) = peak (max n (risk_order level)) rest

taken :
    (first level : RiskLevel)
    → risk_order (if risk_exceeds level first then level else first)
      ≡ max (risk_order first) (risk_order level)
unfolding risk_exceeds
taken first level = ground arith

maximum_risk-peak :
    (first : RiskLevel) (rest : List RiskLevel)
    → risk_order (maximum_risk first rest) ≡ peak (risk_order first) rest
unfolding maximum_risk
maximum_risk-peak first [] = refl
maximum_risk-peak first (level ∷ rest) =
    maximum_risk-peak (if risk_exceeds level first then level else first) rest
    ∙ ap (λ n. peak n rest) (taken first level)

local-external :
    (effect : List ℕ)
    → same_text effect (codes "local") ≡ true
    → same_text effect (codes "external") ≡ false
local-external [] h = refl
local-external (c ∷ cs) h = ground (arith, h)

-- The five tests of `calculate` on any answers.
peak-tests :
    (n : ℕ) (is_local is_external protected removes publishes : Bool)
    → (is_local ≡ true → is_external ≡ false)
    → peak n (
        (if is_local then RiskLevel.medium ∷ [] else high_if is_external)
        ++ high_if protected
        ++ high_if removes
        ++ high_if publishes)
      ≡ max n (
          if is_external || protected || removes || publishes
          then risk_order RiskLevel.high
          else if is_local
          then risk_order RiskLevel.medium
          else risk_order RiskLevel.low)
peak-tests n is_local is_external protected removes publishes h = ground (arith, h)

-- Some test of the call asks for the level HIGH.
abbrev pub asks_high : (List ℕ → List ℕ) → ToolRiskPolicy → ToolCall → Bool
asks_high casefold policy call =
    same_text (casefold call.side_effect) (codes "external")
    || touches_protected casefold policy call.arguments
    || name_has (casefold call.tool_name) removing
    || name_has (casefold call.tool_name) publishing

abbrev pub asked_order : (List ℕ → List ℕ) → ToolRiskPolicy → ToolCall → ℕ
asked_order casefold policy call =
    if asks_high casefold policy call
    then risk_order RiskLevel.high
    else if same_text (casefold call.side_effect) (codes "local")
    then risk_order RiskLevel.medium
    else risk_order RiskLevel.low

-- The level of a call is the greatest of its base level, the floor of the repository, and HIGH where
-- it has effects outside, touches a protected path, or has the name of a tool that removes or
-- publishes, else MEDIUM where it has local effects.
pub calculate-order :
    (casefold : List ℕ → List ℕ) (policy : ToolRiskPolicy) (call : ToolCall)
    → risk_order (calculate casefold policy call)
      ≡ max
          (max (risk_order call.base) (risk_order policy.repository_floor))
          (asked_order casefold policy call)
unfolding calculate levels
calculate-order casefold policy call =
    let effect = casefold call.side_effect in
    let name = casefold call.tool_name in
    maximum_risk-peak call.base (levels casefold policy call)
    ∙ peak-tests (max (risk_order call.base) (risk_order policy.repository_floor))
        (same_text effect (codes "local")) (same_text effect (codes "external"))
        (touches_protected casefold policy call.arguments) (name_has name removing)
        (name_has name publishing) (local-external effect)
