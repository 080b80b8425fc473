-- ===== src/Warrant/Binding/Examples.antt =====
-- An Agent with a subtask, beside another subtask of the same task.
use please_hire_me.Prelude.{
  ℕ, ◌≡◌, refl, ◌⊎◌, inl, inr, Bool, Option, none, some, List, [], ◌∷◌, ◌++◌, Text, codes,
}
use please_hire_me.Aegis.Isolation.{IsolationEvidence, bind_mounts_in}
use please_hire_me.Warrant.Types.{Warrant, WarrantScope, WarrantOrigin}
use please_hire_me.Warrant.Tasks.{Subtask, SubtaskState}
use please_hire_me.Warrant.Orchestrator.{Orchestrator}
use please_hire_me.Warrant.Binding.{
  Workspaces, BoundRun, bind, bound_run, verify_argv, no_subtask, refusal,
}
use please_hire_me.Warrant.Binding.Bound.{IsBound, IsMounted, bind-verify_argv}

abbrev workspaces : Workspaces
workspaces = record { parent = codes "/w"; path_for = λ id. codes "/w/" ++ id }

abbrev subtask : Text → Text → Subtask
subtask id agent_id = record {
  id = id;
  task_id = codes "t";
  title = [];
  description = [];
  owner_id = codes "eve";
  agent_id = agent_id;
  model = codes "m";
  paths = [];
  section = none;
  section_doc = none;
  state = SubtaskState.assigned;
  warrant_id = none;
  approved_by = none;
  updated_at = 0;
}

abbrev warrant : Warrant
warrant = record {
  id = codes "w1";
  human_id = codes "eve";
  agent_id = codes "ada";
  subtask_id = codes "a";
  origin = WarrantOrigin.subtask;
  granted_by = none;
  scopes = WarrantScope.workspace_write ∷ [];
  resources = [];
  issued_at = 0;
  expires_at = 100;
  revoked_at = none;
  revoked_reason = none;
}

abbrev plane : Orchestrator
plane = record {
  tasks = [];
  subtasks =
      (codes "a", subtask (codes "a") (codes "ada"))
      ∷ (codes "b", subtask (codes "b") (codes "bob"))
      ∷ [];
  registry = record {
    humans = [];
    by_handle = [];
    warrants = (codes "w1", warrant) ∷ [];
    sessions = [];
  };
  drawn = 0;
}

abbrev own : List Text
own = codes "--mount" ∷ codes "type=bind,src=/w/a,dst=/workspace" ∷ []

abbrev ada_run : BoundRun
ada_run =
    bound_run workspaces plane (codes "ada") (codes "go") none (subtask (codes "a") (codes "ada"))
      warrant

abbrev seen : IsolationEvidence
seen = record { bind_mounts = 1; writable_mounts = 1; workspace = codes "/w/a" }

nobody :
    bind workspaces plane 50 (codes "cyd") (codes "go") none
    ≡ inl (refusal (codes "cyd") none none no_subtask)
unfolding bind please_hire_me.Prelude.text_eq
nobody = refl

ada_bound : bind workspaces plane 50 (codes "ada") (codes "go") none ≡ inr ada_run
unfolding bind please_hire_me.Prelude.text_eq please_hire_me.Warrant.Types.has_scope
ada_bound = refl

own_passes : verify_argv ada_run own ≡ inr seen
unfolding verify_argv please_hire_me.Prelude.text_eq please_hire_me.Warrant.Orchestrator.subtasks_of
    please_hire_me.Aegis.Isolation.is_ancestor_of
own_passes = refl

bind-verify_argv_example :
    (h : IsBound workspaces plane 50 (codes "ada") ada_run) × IsMounted workspaces plane h.subtask
      (bind_mounts_in own)
      seen
bind-verify_argv_example =
    bind-verify_argv workspaces plane 50 (codes "ada") (codes "go") none ada_run own seen ada_bound
      own_passes
