-- ===== src/Warrant/Plane.antt =====
-- apps/server/src/warrant/index.ts: the one entry point that asks the policy, and the handlers of
-- routes.ts that act on its decision. The audit chain is not modelled.
pub mod Approvals
pub mod Histories
use please_hire_me.Prelude.{
  ℕ, Bool, true, false, not, Option, none, some, List, [], ◌∷◌, if◌then◌else◌, ltb, keep_if,
  or_option, or_else, truthy, is_some, Text, text_eq, lookup, values,
}
use please_hire_me.Warrant.Types.{HumanPrincipal, Warrant, WarrantAgentPrincipal, WarrantAction}
use please_hire_me.Warrant.Resources.{workspace_resource, integration_branch}
use please_hire_me.Warrant.Registry.{Registry, resolve_session, warrant_for_agent, principal_for}
use please_hire_me.Warrant.Policy.{
  AuthzFacts, AuthzRequest, AuthzDecision, Decision, allow, deny, authorize, human_id_of,
}
use please_hire_me.Warrant.Tasks.{Subtask, Task, SubtaskState, submitted}
use please_hire_me.Warrant.Orchestrator.{
  Orchestrator, orchestrator_id, owner_of_resource, subtask_by_agent, all_approved,
  pending_approvals, set_state, mark_integrated,
}

pub record CheckInput : Type 0 where
  pub token : Option Text
  pub agent_id : Option Text
  pub action : WarrantAction
  pub resource : Text
  pub task_id : Option Text

-- The first after a stable sort by `issuedAt`, the latest in front.
unfoldable pub latest : List Warrant → Option Warrant
latest [] = none
latest (w ∷ ws) = elim (latest ws) [
  | none ↦ some w
  | some v ↦ if ltb w.issued_at v.issued_at then some v else some w
]

unfoldable pub last_warrant_for_agent : Text → Registry → Option Warrant
unfolding latest
last_warrant_for_agent agent_id r =
    latest (keep_if (λ (w : Warrant). text_eq w.agent_id agent_id) (values r.warrants))

abbrev pub task_of : Option Subtask → Text
task_of none = []
task_of (some s) = s.task_id

-- `input.taskId ?? (input.agentId ? … : "")`, and the test for the empty text.
unfoldable pub task_asked : CheckInput → Orchestrator → Option Text
unfolding subtask_by_agent
task_asked input o = elim input.task_id [
  | some id ↦ truthy (some id)
  | none ↦ elim (truthy input.agent_id) [
    | none ↦ none
    | some agent ↦ truthy (some (task_of (subtask_by_agent agent o)))
  ]
]

abbrev pub is_human : Option HumanPrincipal → Text → Bool
is_human none id = false
is_human (some h) id = text_eq h.id id

abbrev pub approval_of : Option Text → Orchestrator → Bool
approval_of none o = false
approval_of (some task) o = all_approved task o

abbrev pub pending_of : Option Text → Orchestrator → List Text
pending_of none o = []
pending_of (some task) o = pending_approvals task o

abbrev pub principal_of : Option Warrant → Option WarrantAgentPrincipal
principal_of none = none
principal_of (some w) = some (principal_for w)

abbrev pub warrant_asked : ℕ → Option Text → Registry → Option Warrant
warrant_asked now none r = none
warrant_asked now (some agent) r =
    or_option (warrant_for_agent now agent r) (last_warrant_for_agent agent r)

-- The request that `check` puts together from the facts.
unfoldable pub request_of : ℕ → CheckInput → Orchestrator → AuthzRequest
unfolding resolve_session last_warrant_for_agent task_asked owner_of_resource principal_for
request_of now input o =
    let human = resolve_session input.token o.registry in
    let warrant = warrant_asked now (truthy input.agent_id) o.registry in
    let task = task_asked input o in
    record {
      human = human;
      agent = principal_of warrant;
      warrant = warrant;
      action = input.action;
      resource = input.resource;
      facts = record {
        now = now;
        resource_owner_id = owner_of_resource input.resource o;
        is_orchestrator = is_human human orchestrator_id;
        all_subtasks_approved = approval_of task o;
        pending_subtask_ids = pending_of task o;
      };
    }

unfoldable pub check : ℕ → CheckInput → Orchestrator → AuthzDecision
unfolding request_of authorize
check now input o = authorize (request_of now input o)

abbrev pub is_allowed : Decision → Bool
is_allowed allow = true
is_allowed deny = false

abbrev pub submission : Text → Text → CheckInput
submission agent_id subtask_id = record {
  token = none;
  agent_id = some agent_id;
  action = WarrantAction.merge_propose;
  resource = workspace_resource subtask_id;
  task_id = none;
}

-- `POST /api/warrant/subtasks/:subtaskId/submit`; `none` for 404 and 403.
unfoldable pub submit : ℕ → Text → Orchestrator → Orchestrator × Option Subtask
submit now subtask_id o = elim (lookup subtask_id o.subtasks) [
  | none ↦ (o, none)
  | some s ↦
      if is_allowed (check now (submission s.agent_id subtask_id) o).decision
      then set_state now subtask_id submitted o
      else (o, none)
]

abbrev pub integration : Option Text → Text → CheckInput
integration token task_id = record {
  token = token;
  agent_id = none;
  action = WarrantAction.merge_integrate;
  resource = integration_branch;
  task_id = some task_id;
}

-- `POST /api/warrant/tasks/:taskId/integrate`; `none` for 401, 404 and 403.
unfoldable pub integrate : ℕ → Option Text → Text → Orchestrator → Orchestrator × Option Task
integrate now token task_id o =
    if not (is_some (resolve_session token o.registry))
    then (o, none)
    else if not (is_some (lookup task_id o.tasks))
    then (o, none)
    else if is_allowed (check now (integration token task_id) o).decision
    then mark_integrated now task_id o
    else (o, none)
