-- ===== src/Warrant/Orchestrator.antt =====
-- apps/server/src/warrant/orchestrator.ts: a task is split, each part gets an owner, an Agent with
-- its warrant and a section, and the parts are approved. The splitter is an argument, as are
-- the clock, the random identifiers and `toLowerCase`.
pub mod Headings
pub mod Plans
use please_hire_me.Prelude.{
  ℕ, zero, suc, ◌+◌, ◌%◌, Bool, true, false, not, ◌&&◌, ◌||◌, Option, none, some, List, [], ◌∷◌,
  ◌++◌, map, if◌then◌else◌, ltb, ◌==◌, length, get_or, keep_if, any, find?, or_else, truthy, Text,
  codes, text_eq, decimal, Assoc, lookup, insert, values,
}
use please_hire_me.Warrant.Types.{WarrantScope, Warrant}
use please_hire_me.Warrant.Resources.{workspace_resource, repo_file_resource}
use please_hire_me.Warrant.Registry.{Registry, issue}
use please_hire_me.Warrant.Tasks.{
  SubtaskState, assigned, in_progress, submitted, approved, integrated, blocked, Subtask, TaskState,
  planned, Task, SubtaskProposal,
}
use please_hire_me.Warrant.ModelPolicy.{ModelTiers, select_model}

abbrev pub orchestrator_id : Text
orchestrator_id = codes "human:orchestrator"

abbrev pub agent_scopes : List WarrantScope
agent_scopes =
    WarrantScope.workspace_read ∷ WarrantScope.workspace_write ∷ WarrantScope.model_invoke
    ∷ WarrantScope.merge_propose ∷ WarrantScope.comment_write ∷ []

pub record PlanInput : Type 0 where
  pub title : Text
  pub created_by : Text
  pub owners : List Text
  pub max_subtasks : Option ℕ
  pub warrant_ttl_ms : Option ℕ
  pub shared_paths : Option (List Text)

-- `drawn` counts the random identifiers that are used up.
pub record Orchestrator : Type 0 where
  pub tasks : Assoc Task
  pub subtasks : Assoc Subtask
  pub registry : Registry
  pub drawn : ℕ

abbrev pub shared : PlanInput → List Text
shared input = or_else input.shared_paths []

-- `input.sharedPaths?.[0] ?? null`, which is tested for the empty text.
abbrev pub section_doc_of : PlanInput → Option Text
section_doc_of input = elim (shared input) [ [] ↦ none | doc ∷ docs ↦ some doc ]

abbrev pub heading_of : Text → Text
heading_of title = codes "## " ++ title

abbrev pub numbered_heading : Text → ℕ → Text
numbered_heading title suffix =
    codes "## " ++ (title ++ (codes " (" ++ (decimal suffix ++ codes ")")))

-- `while (takenSections.has(heading))`, on fuel; `none` where it runs out.
unfoldable pub free_heading : ℕ → List Text → Text → Text → ℕ → Option Text
free_heading zero taken title heading suffix = none
free_heading (suc fuel) taken title heading suffix =
    let next = free_heading fuel taken title (numbered_heading title suffix) (suffix + 1) in
    if any (text_eq heading) taken then next else some heading

-- The section of the next subtask: each round tries another heading, so one of `n + 1` is free.
unfoldable pub next_section : List Text → Text → Option Text
unfolding free_heading
next_section taken title = free_heading (suc (length taken)) taken title (heading_of title) 2

abbrev pub take_section : Option Text → List Text → List Text
take_section none taken = taken
take_section (some heading) taken = taken ++ heading ∷ []

-- `if (sectionDoc)`, on a document or an empty text or null.
abbrev pub section_in : Option Text → List Text → Text → Option Text
section_in none taken title = none
section_in (some doc) taken title = next_section taken title

module _ (uuid : ℕ → Text) (to_lower : Text → Text) (tiers : ModelTiers) (now : ℕ)
    (input : PlanInput) (task_id : Text) where
  abbrev pub granted : Text → SubtaskProposal → List Text
  granted subtask_id proposal =
      workspace_resource subtask_id ∷ map repo_file_resource proposal.paths
      ++ map repo_file_resource (shared input)

  -- One round of the loop: the registry with the Agent's warrant, and the subtask.
  unfoldable pub assign : ℕ → List Text → SubtaskProposal → Orchestrator → Orchestrator × Subtask
  unfolding issue select_model next_section
  assign index taken proposal o =
      let subtask_id = codes "sub_" ++ uuid o.drawn in
      let agent_id = codes "agent_" ++ uuid (o.drawn + 1) in
      let owner_id = get_or input.owners (index % length input.owners) [] in
      let (registry, warrant) =
        issue now (uuid (o.drawn + 2))
          (record {
            human_id = owner_id;
            agent_id = agent_id;
            subtask_id = subtask_id;
            scopes = agent_scopes;
            resources = granted subtask_id proposal;
            ttl_ms = input.warrant_ttl_ms;
            origin = none;
            granted_by = none;
            expires_at = none;
          })
          o.registry in
      let subtask : Subtask = record {
        id = subtask_id;
        task_id = task_id;
        title = proposal.title;
        description = proposal.description;
        owner_id = owner_id;
        agent_id = agent_id;
        model =
            select_model to_lower
              (record {
                title = proposal.title;
                description = proposal.description;
                path_count = length proposal.paths;
                dependency_count = 0;
              })
              tiers;
        paths = proposal.paths;
        section = section_in (truthy (section_doc_of input)) taken proposal.title;
        section_doc = section_doc_of input;
        state = assigned;
        warrant_id = some warrant.id;
        approved_by = none;
        updated_at = now;
      } in
      (
        record o {
          registry = registry;
          subtasks = insert subtask_id subtask o.subtasks;
          drawn = o.drawn + 3;
        },
        subtask,
      )

  -- `proposals.forEach`, from the proposal number `index` on.
  unfoldable pub assign_all :
      List SubtaskProposal → ℕ → List Text → Orchestrator → Orchestrator × List Subtask
  assign_all [] index taken o = (o, [])
  assign_all (p ∷ ps) index taken o =
      let (o', subtask) = assign index taken p o in
      let (o'', rest) = assign_all ps (index + 1) (take_section subtask.section taken) o' in
      (o'', subtask ∷ rest)

pub data PlanOutcome : Type 0 where
  no_owner : PlanOutcome
  made : Task → List Subtask → PlanOutcome

unfoldable pub plan :
    (ℕ → Text)
    → (Text → Text)
    → ModelTiers
    → ℕ
    → (Text → ℕ → List SubtaskProposal)
    → PlanInput
    → Orchestrator
    → Orchestrator × PlanOutcome
plan uuid to_lower tiers now split input o =
    if length input.owners == 0
    then (o, no_owner)
    else let proposals = split input.title (or_else input.max_subtasks 3) in
      let task_id = codes "task_" ++ uuid o.drawn in
      let (o', created) =
        assign_all uuid to_lower tiers now input task_id proposals 0 []
          (record o { drawn = o.drawn + 1 }) in
      let task : Task = record {
        id = task_id;
        title = input.title;
        created_by = input.created_by;
        created_at = now;
        subtask_ids = map (λ (s : Subtask). s.id) created;
        shared_paths = shared input;
        state = planned;
      } in
      (record o' { tasks = insert task_id task o'.tasks }, made task created)

unfoldable pub subtasks_of : Text → Orchestrator → List Subtask
subtasks_of task_id o = keep_if (λ (s : Subtask). text_eq s.task_id task_id) (values o.subtasks)

abbrev pub owner_of : Option Subtask → Option Text
owner_of none = none
owner_of (some s) = some s.owner_id

unfoldable pub owner_of_resource : Text → Orchestrator → Option Text
owner_of_resource resource o =
    owner_of
      (find? (λ (s : Subtask). text_eq (workspace_resource s.id) resource) (values o.subtasks))

unfoldable pub subtask_by_agent : Text → Orchestrator → Option Subtask
subtask_by_agent agent_id o =
    find? (λ (s : Subtask). text_eq s.agent_id agent_id) (values o.subtasks)

unfoldable pub set_state : ℕ → Text → SubtaskState → Orchestrator → Orchestrator × Option Subtask
set_state now id state o = elim (lookup id o.subtasks) [
  | none ↦ (o, none)
  | some s ↦
      let s' = record s { state = state; updated_at = now } in
      (record o { subtasks = insert id s' o.subtasks }, some s')
]

pub data Approval : Type 0 where
  unknown_subtask : Approval
  only_by : Text → Approval
  is_now : SubtaskState → Approval
  approved_by : Text → Approval

abbrev pub is_submitted : SubtaskState → Bool
is_submitted submitted = true
is_submitted _ = false

unfoldable pub approve : ℕ → Text → Text → Orchestrator → Orchestrator × Approval
approve now id human_id o = elim (lookup id o.subtasks) [
  | none ↦ (o, unknown_subtask)
  | some s ↦
      if not (text_eq s.owner_id human_id)
      then (o, only_by s.owner_id)
      else if not (is_submitted s.state)
      then (o, is_now s.state)
      else let s' = record s { state = approved; approved_by = some human_id; updated_at = now } in
        (record o { subtasks = insert id s' o.subtasks }, approved_by human_id)
]

-- `s.state !== "approved" && s.state !== "integrated"`.
abbrev pub is_pending : SubtaskState → Bool
is_pending approved = false
is_pending integrated = false
is_pending _ = true

unfoldable pub pending_approvals : Text → Orchestrator → List Text
unfolding subtasks_of
pending_approvals task_id o =
    map (λ (s : Subtask). s.id)
      (keep_if (λ (s : Subtask). is_pending s.state) (subtasks_of task_id o))

unfoldable pub all_approved : Text → Orchestrator → Bool
unfolding subtasks_of pending_approvals
all_approved task_id o =
    ltb 0 (length (subtasks_of task_id o)) && length (pending_approvals task_id o) == 0

-- The loop over the subtasks of the task.
unfoldable pub integrate_all : ℕ → List Subtask → Assoc Subtask → Assoc Subtask
integrate_all now [] m = m
integrate_all now (s ∷ ss) m =
    integrate_all now ss (insert s.id (record s { state = integrated; updated_at = now }) m)

unfoldable pub mark_integrated : ℕ → Text → Orchestrator → Orchestrator × Option Task
unfolding subtasks_of integrate_all
mark_integrated now task_id o = elim (lookup task_id o.tasks) [
  | none ↦ (o, none)
  | some t ↦
      let t' = record t { state = TaskState.integrated } in
      (
        record o {
          subtasks = integrate_all now (subtasks_of task_id o) o.subtasks;
          tasks = insert task_id t' o.tasks;
        },
        some t',
      )
]
