-- ===== src/Warrant/Policy.antt =====
-- apps/server/src/warrant/policy.ts: the authorization decision as a pure function. A rule id is a
-- constructor, and a reason is one that holds the values its message names.
pub mod Decides
pub mod Attenuation
use please_hire_me.Prelude.{
  ℕ, Bool, true, false, not, ◌&&◌, ◌||◌, Option, none, some, List, [], ◌∷◌, if◌then◌else◌, leb, any,
  is_none, is_some, or_option, Text, text_eq,
}
use please_hire_me.Warrant.Types.{
  HumanPrincipal, WarrantAgentPrincipal, Warrant, WarrantScope, WarrantAction, has_scope,
}
use please_hire_me.Warrant.Resources.{covers, is_integration_branch, is_workspace}

pub record AuthzFacts : Type 0 where
  pub now : ℕ
  pub resource_owner_id : Option Text
  pub is_orchestrator : Bool
  pub all_subtasks_approved : Bool
  pub pending_subtask_ids : List Text

pub record AuthzRequest : Type 0 where
  pub human : Option HumanPrincipal
  pub agent : Option WarrantAgentPrincipal
  pub warrant : Option Warrant
  pub action : WarrantAction
  pub resource : Text
  pub facts : AuthzFacts

pub data Decision : Type 0 where
  allow deny : Decision

-- "WB-7.integrate.orchestrator-only", "WB-7.integrate.wrong-resource",
-- "WB-8.integrate.unapproved-subtask", "WB-0.integrate.all-approved", "WB-1.no-warrant",
-- "WB-1.warrant-agent-mismatch", "WB-2.warrant-revoked", "WB-3.warrant-expired",
-- "WB-4.scope-not-granted", "WB-6.cross-owner-denied", "WB-5.resource-outside-warrant" and
-- "WB-0.warrant-covers-resource", in this order.
pub data RuleId : Type 0 where
  orchestrator_only wrong_resource unapproved_subtask all_approved no_warrant warrant_agent_mismatch
        warrant_revoked warrant_expired scope_not_granted cross_owner_denied
        resource_outside_warrant warrant_covers_resource :
      RuleId

pub data Reason : Type 0 where
  fixed : Reason
  awaiting : List Text → Reason
  revoked : ℕ → Option Text → Reason
  expired : ℕ → Reason
  lacks : WarrantScope → Reason
  belongs_to : Text → Text → Reason
  grants : Text → WarrantAction → Reason

pub record AuthzDecision : Type 0 where
  pub human_id : Option Text
  pub agent_id : Option Text
  pub action : WarrantAction
  pub resource : Text
  pub decision : Decision
  pub rule_id : RuleId
  pub reason : Reason
  pub warrant_id : Option Text

-- `SCOPE_FOR`.
abbrev pub scope_for : WarrantAction → Option WarrantScope
scope_for WarrantAction.workspace_read = some WarrantScope.workspace_read
scope_for WarrantAction.workspace_write = some WarrantScope.workspace_write
scope_for WarrantAction.merge_propose = some WarrantScope.merge_propose
scope_for WarrantAction.merge_integrate = none
scope_for WarrantAction.task_read = none
scope_for WarrantAction.comment_write = some WarrantScope.comment_write

abbrev pub human_id_of : Option HumanPrincipal → Option Text
human_id_of none = none
human_id_of (some h) = some h.id

abbrev pub owner_id_of : Option WarrantAgentPrincipal → Option Text
owner_id_of none = none
owner_id_of (some a) = some a.owner_id

abbrev pub agent_id_of : Option WarrantAgentPrincipal → Option Text
agent_id_of none = none
agent_id_of (some a) = some a.agent_id

abbrev pub warrant_id_of : Option Warrant → Option Text
warrant_id_of none = none
warrant_id_of (some w) = some w.id

unfoldable pub decide : AuthzRequest → Decision → RuleId → Reason → AuthzDecision
decide r decision rule_id reason = record {
  human_id = or_option (human_id_of r.human) (owner_id_of r.agent);
  agent_id = agent_id_of r.agent;
  action = r.action;
  resource = r.resource;
  decision = decision;
  rule_id = rule_id;
  reason = reason;
  warrant_id = warrant_id_of r.warrant;
}

unfoldable pub authorize_integrate : AuthzRequest → AuthzDecision
unfolding decide
authorize_integrate r =
    if not r.facts.is_orchestrator
    then decide r deny orchestrator_only fixed
    else if not (is_integration_branch r.resource)
    then decide r deny wrong_resource fixed
    else if not r.facts.all_subtasks_approved
    then decide r deny unapproved_subtask (awaiting r.facts.pending_subtask_ids)
    else decide r allow all_approved fixed

-- The scope that the action requires and the warrant does not carry.
unfoldable pub missing_scope : WarrantAction → List WarrantScope → Option WarrantScope
missing_scope action scopes = elim (scope_for action) [
  | none ↦ none
  | some required ↦ if has_scope required scopes then none else some required
]

-- The owner of the workspace, where it is not the human that the Agent acts for.
unfoldable pub other_owner : Text → Option Text → Text → Option Text
other_owner resource none owner_id = none
other_owner resource (some owner) owner_id =
    if is_workspace resource && not (text_eq owner owner_id) then some owner else none

unfoldable pub covered : List Text → Text → Bool
covered granted resource = any (λ g. covers g resource) granted

unfoldable pub authorize_scope : AuthzRequest → WarrantAgentPrincipal → Warrant → AuthzDecision
unfolding decide
authorize_scope r agent w = elim (missing_scope r.action w.scopes) [
  | some required ↦ decide r deny scope_not_granted (lacks required)
  | none ↦ elim (other_owner r.resource r.facts.resource_owner_id agent.owner_id) [
    | some owner ↦ decide r deny cross_owner_denied (belongs_to agent.owner_id owner)
    | none ↦
        if not (covered w.resources r.resource)
        then decide r deny resource_outside_warrant fixed
        else decide r allow warrant_covers_resource (grants w.id r.action)
  ]
]

unfoldable pub authorize_warrant : AuthzRequest → WarrantAgentPrincipal → Warrant → AuthzDecision
unfolding decide authorize_scope
authorize_warrant r agent w =
    if not (text_eq w.agent_id agent.agent_id)
    then decide r deny warrant_agent_mismatch fixed
    else elim w.revoked_at [
      | some at ↦ decide r deny warrant_revoked (revoked at w.revoked_reason)
      | none ↦
          if leb w.expires_at r.facts.now
          then decide r deny warrant_expired (expired w.expires_at)
          else authorize_scope r agent w
    ]

unfoldable pub authorize_agent :
    AuthzRequest → Option WarrantAgentPrincipal → Option Warrant → AuthzDecision
unfolding decide authorize_warrant
authorize_agent r none w = decide r deny no_warrant fixed
authorize_agent r (some agent) none = decide r deny no_warrant fixed
authorize_agent r (some agent) (some w) = authorize_warrant r agent w

abbrev pub is_integrate : WarrantAction → Bool
is_integrate WarrantAction.merge_integrate = true
is_integrate _ = false

unfoldable pub authorize : AuthzRequest → AuthzDecision
unfolding authorize_integrate authorize_agent
authorize r =
    if is_integrate r.action then authorize_integrate r else authorize_agent r r.agent r.warrant
