-- ===== src/Aegis/Policy.antt =====
-- apps/server/src/aegis/types.ts and policy/engine.ts: requests, rules and the decision. A predicate
-- that throws is `none`. The version and the hash of the bundle are not part of a verdict here.
pub mod Resource
pub mod Bundle
pub mod Overrides
pub mod Confinement
mod Examples
use please_hire_me.Prelude.{
  ℕ, Bool, true, false, Option, none, some, List, [], ◌∷◌, if◌then◌else◌, keep_if, Text,
}

pub data Decision : Type 0 where
  allow deny : Decision

pub data GateId : Type 0 where
  preflight confinement interception postflight authz concord : GateId

pub data Severity : Type 0 where
  info warn critical : Severity

pub data Scope : Type 0 where
  workspace_rw model_invoke net_egress : Scope

pub data PolicyAction : Type 0 where
  run_start fs_read fs_write net_connect proc_exec : PolicyAction

pub record AgentPrincipal : Type 0 where
  pub agent_id : Text
  pub owner_id : Text
  pub scopes : List Scope

-- The estimate of the cost stands where the budget is asked for, in the bundle.
pub record PolicyContext : Type 0 where
  pub run_id : Text
  pub gate : GateId
  pub workspace_path : Option Text

pub record PolicyRequest : Type 0 where
  pub principal : AgentPrincipal
  pub action : PolicyAction
  pub resource : Text
  pub context : PolicyContext

pub record PolicyRule : Type 0 where
  pub id : Text
  pub effect : Decision
  pub gate : GateId
  pub severity : Severity
  pub when : PolicyRequest → Option Bool

-- "AEGIS.predicate-fault", "AEGIS.default-deny", or the rule that decides.
pub data Ground : Type 0 where
  predicate_fault : Text → Ground
  default_deny : Ground
  by_rule : Text → Ground

pub record Verdict : Type 0 where
  pub decision : Decision
  pub ground : Ground
  pub severity : Severity
  pub gate : GateId

abbrev pub gate_eq : GateId → GateId → Bool
gate_eq preflight preflight = true
gate_eq confinement confinement = true
gate_eq interception interception = true
gate_eq postflight postflight = true
gate_eq authz authz = true
gate_eq concord concord = true
gate_eq _ _ = false

abbrev pub verdict : PolicyRequest → Decision → Ground → Severity → Verdict
verdict r decision ground severity = record {
  decision = decision;
  ground = ground;
  severity = severity;
  gate = r.context.gate;
}

-- `allow ??= …`: the first permit is kept.
abbrev pub keep_first : Option Verdict → Verdict → Option Verdict
keep_first none v = some v
keep_first (some old) v = some old

-- What follows a rule that matches; `rest` goes on with the permit that is kept.
abbrev pub matched :
    PolicyRequest → PolicyRule → Decision → Option Verdict → (Option Verdict → Verdict) → Verdict
matched r rule deny permit rest = verdict r deny (by_rule rule.id) rule.severity
matched r rule allow permit rest =
    rest (keep_first permit (verdict r allow (by_rule rule.id) rule.severity))

-- The loop over the rules of the gate.
unfoldable pub evaluate_rules : PolicyRequest → List PolicyRule → Option Verdict → Verdict
evaluate_rules r [] none = verdict r deny default_deny warn
evaluate_rules r [] (some permit) = permit
evaluate_rules r (rule ∷ rules) permit =
    let rest = evaluate_rules r rules in
    elim (rule.when r) [
      | none ↦ verdict r deny (predicate_fault rule.id) critical
      | some hit ↦ if hit then matched r rule rule.effect permit rest else rest permit
    ]

unfoldable pub evaluate : List PolicyRule → PolicyRequest → Verdict
unfolding evaluate_rules
evaluate rules r =
    evaluate_rules r (keep_if (λ (rule : PolicyRule). gate_eq rule.gate r.context.gate) rules) none

abbrev pub if_denied : Verdict → Option Verdict → Option Verdict
if_denied v rest = elim v.decision [ deny ↦ some v | allow ↦ rest ]

unfoldable pub first_denial : List PolicyRule → List PolicyRequest → Option Verdict
unfolding evaluate
first_denial rules [] = none
first_denial rules (r ∷ rs) = if_denied (evaluate rules r) (first_denial rules rs)
