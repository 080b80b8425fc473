-- ===== src/Warrant/Binding.antt =====
-- apps/server/src/warrant/binding.ts: from a subtask and a live warrant to a run, and the check of the
-- run's container. `path_for` is SubtaskWorkspaceManager.pathFor, a join of paths below its root.
mod Bound
mod Examples
use please_hire_me.Prelude.{
  ℕ, Bool, true, false, not, ◌⊎◌, inl, inr, Option, none, some, List, [], ◌∷◌, map, if◌then◌else◌,
  keep_if, Text, codes, text_eq,
}
use please_hire_me.Aegis.Isolation.{
  WorkspaceIsolationOptions, SandboxProfileError, IsolationEvidence, assert_workspace_isolation,
  isolation_evidence,
}
use please_hire_me.Warrant.Types.{Warrant, WarrantScope, has_scope}
use please_hire_me.Warrant.Resources.{workspace_resource}
use please_hire_me.Warrant.Registry.{warrant_for_agent}
use please_hire_me.Warrant.Tasks.{Subtask}
use please_hire_me.Warrant.Orchestrator.{Orchestrator, subtask_by_agent, subtasks_of}

pub data BindingRule : Type 0 where
  no_subtask no_live_warrant warrant_subtask_mismatch scope_not_granted : BindingRule

-- The decision that the error carries; its action is always `workspace:write`.
pub record WarrantBindingError : Type 0 where
  pub human_id : Option Text
  pub agent_id : Text
  pub resource : Text
  pub rule : BindingRule
  pub warrant_id : Option Text

pub record RunnerRequest : Type 0 where
  pub agent_id : Text
  pub workspace_path : Text
  pub prompt : Text
  pub thread_id : Option Text

pub record BoundRun : Type 0 where
  pub request : RunnerRequest
  pub isolation : WorkspaceIsolationOptions
  pub subtask_id : Text
  pub owner_id : Text
  pub warrant_id : Text
  pub model : Text

pub record Workspaces : Type 0 where
  pub parent : Text
  pub path_for : Text → Text

abbrev pub siblings_of : Workspaces → Text → List Text → List Text
siblings_of workspaces subtask_id ids =
    map workspaces.path_for (keep_if (λ (id : Text). not (text_eq id subtask_id)) ids)

abbrev pub refusal : Text → Option Subtask → Option Warrant → BindingRule → WarrantBindingError
refusal agent_id subtask warrant rule = record {
  human_id = elim subtask [ none ↦ none | some s ↦ some s.owner_id ];
  agent_id = agent_id;
  resource = elim subtask [ none ↦ codes "ws:unknown" | some s ↦ workspace_resource s.id ];
  rule = rule;
  warrant_id = elim warrant [ none ↦ none | some w ↦ some w.id ];
}

module _ (workspaces : Workspaces) (o : Orchestrator) where
  abbrev pub bound_run : Text → Text → Option Text → Subtask → Warrant → BoundRun
  bound_run agent_id prompt thread_id s w = record {
    request = record {
      agent_id = agent_id;
      workspace_path = workspaces.path_for s.id;
      prompt = prompt;
      thread_id = thread_id;
    };
    isolation = record {
      allowed_workspace = workspaces.path_for s.id;
      sibling_workspaces =
          siblings_of workspaces s.id (map (λ (t : Subtask). t.id) (subtasks_of s.task_id o));
      workspace_parent = workspaces.parent;
    };
    subtask_id = s.id;
    owner_id = s.owner_id;
    warrant_id = w.id;
    model = s.model;
  }

  abbrev pub bind_with :
      Text → Text → Option Text → Option Subtask → Option Warrant → WarrantBindingError ⊎ BoundRun
  bind_with agent_id prompt thread_id none warrant = inl (refusal agent_id none warrant no_subtask)
  bind_with agent_id prompt thread_id (some s) none =
      inl (refusal agent_id (some s) none no_live_warrant)
  bind_with agent_id prompt thread_id (some s) (some w) =
      if not (text_eq w.subtask_id s.id)
      then inl (refusal agent_id (some s) (some w) warrant_subtask_mismatch)
      else if not (has_scope WarrantScope.workspace_write w.scopes)
      then inl (refusal agent_id (some s) (some w) scope_not_granted)
      else inr (bound_run agent_id prompt thread_id s w)

  unfoldable pub bind : ℕ → Text → Text → Option Text → WarrantBindingError ⊎ BoundRun
  unfolding subtask_by_agent subtasks_of warrant_for_agent
  bind now agent_id prompt thread_id =
      bind_with agent_id prompt thread_id (subtask_by_agent agent_id o)
        (warrant_for_agent now agent_id o.registry)

unfoldable pub verify_argv : BoundRun → List Text → SandboxProfileError ⊎ IsolationEvidence
unfolding assert_workspace_isolation isolation_evidence
verify_argv bound args = elim (assert_workspace_isolation args bound.isolation) [
  | some e ↦ inl e
  | none ↦ inr (isolation_evidence args)
]
