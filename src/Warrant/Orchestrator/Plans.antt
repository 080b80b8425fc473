-- ===== src/Warrant/Orchestrator/Plans.antt =====
-- What a plan makes: one section for each subtask, and one warrant for each Agent.
use please_hire_me.Prelude.{
  ℕ, ◌≡◌, ◌⊎◌, ◌≢◌, none, some, List, [], ◌∷◌, ◌++◌, map, length, truthy, Text, codes, lookup,
  or_else, In, All,
}
use please_hire_me.Warrant.Types.{Warrant}
use please_hire_me.Warrant.Resources.{workspace_resource, repo_file_resource}
use please_hire_me.Warrant.Registry.{Registry}
use please_hire_me.Warrant.Tasks.{Subtask, SubtaskProposal, Task, assigned}
use please_hire_me.Warrant.ModelPolicy.{ModelTiers}
use please_hire_me.Warrant.Orchestrator.{
  PlanInput, Orchestrator, shared, section_doc_of, take_section, assign_all, PlanOutcome, no_owner,
  made, agent_scopes,
}
use please_hire_me.Warrant.Orchestrator.Headings.{IsNodup}

-- The sections that were handed out.
abbrev pub headings : List Subtask → List Text
headings [] = []
headings (s ∷ ss) = take_section s.section [] ++ headings ss

module _ (uuid : ℕ → Text) (to_lower : Text → Text) (tiers : ModelTiers) (now : ℕ)
    (input : PlanInput) (task_id : Text) where
  abbrev created : List SubtaskProposal → ℕ → List Text → Orchestrator → List Subtask
  created ps index taken o = (assign_all uuid to_lower tiers now input task_id ps index taken o).1

-- The Agent of a subtask has a warrant in the registry, for its workspace, its files and the shared
-- ones, in the name of the human who owns the subtask.
pub record Holds (input : PlanInput) (r : Registry) (s : Subtask) : Type 0 where
  pub warrant : Warrant
  pub issued : lookup warrant.id r.warrants ≡ some warrant
  pub named : s.warrant_id ≡ some warrant.id
  pub agent : warrant.agent_id ≡ s.agent_id
  pub human : warrant.human_id ≡ s.owner_id
  pub subtask : warrant.subtask_id ≡ s.id
  pub scopes : warrant.scopes ≡ agent_scopes
  pub live : warrant.revoked_at ≡ none
  pub resources :
      warrant.resources
      ≡ workspace_resource s.id ∷ map repo_file_resource s.paths
        ++ map repo_file_resource (shared input)

abbrev warrant_key : (ℕ → Text) → ℕ → Text
warrant_key uuid n = codes "wrt_" ++ uuid n

module _ (uuid : ℕ → Text) (apart : (m n : ℕ) → uuid m ≡ uuid n → m ≡ n) (to_lower : Text → Text)
    (tiers : ModelTiers) (now : ℕ) (input : PlanInput) (task_id : Text) where
  -- What a subtask is just after it was assigned.
  abbrev Assigned : Registry → Subtask → Type 0
  Assigned r s =
      Holds input r s
      × In s.owner_id input.owners
      × (s.task_id ≡ task_id)
      × (s.state ≡ assigned)
      × (s.approved_by ≡ none)

-- Every subtask is new, and its Agent holds its warrant.
pub record IsFresh (input : PlanInput) (r : Registry) (task : Task) (s : Subtask) : Type 0 where
  pub holds : Holds input r s
  pub owner : In s.owner_id input.owners
  pub part : s.task_id ≡ task.id
  pub not_started : s.state ≡ assigned
  pub not_approved : s.approved_by ≡ none

-- Each subtask has a section of its own, or none has one.
abbrev pub AreDivided : PlanInput → List Subtask → Type 0
AreDivided input subtasks =
    ((truthy (section_doc_of input) ≡ none) × (headings subtasks ≡ []))
    ⊎ ((truthy (section_doc_of input) ≢ none)
        × (length (headings subtasks) ≡ length subtasks)
        × IsNodup (headings subtasks))

abbrev Divides : (Text → ℕ → List SubtaskProposal) → PlanInput → Orchestrator × PlanOutcome → Type 0
Divides split input (t, no_owner) = Unit
Divides split input (t, made task subtasks) =
    (length subtasks ≡ length (split input.title (or_else input.max_subtasks 3)))
    × All (IsFresh input t.registry task) subtasks
    × AreDivided input subtasks
