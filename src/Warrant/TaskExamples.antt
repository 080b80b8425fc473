-- ===== src/Warrant/TaskExamples.antt =====
-- A task of two parts, from its plan to its integration.
use please_hire_me.Prelude.{
  ℕ, zero, suc, ◌+◌, ◌<◌, ◌≡◌, ◌≢◌, ◌⊎◌, refl, inl, inr, Bool, true, false, Option, none, some,
  List, [], ◌∷◌, ◌++◌, arith, length, any, truthy, Text, codes, text_eq, Assoc, lookup, All, In,
}
use please_hire_me.Warrant.Types.{HumanPrincipal}
use please_hire_me.Warrant.Registry.{Registry, resolve_session}
use please_hire_me.Warrant.Tasks.{
  SubtaskState, Subtask, Task, submitted, approved, planned, TaskState, SubtaskProposal,
}
use please_hire_me.Warrant.ModelPolicy.{ModelTiers}
use please_hire_me.Warrant.Orchestrator.{
  PlanInput, Orchestrator, orchestrator_id, next_section, plan, set_state, approve, is_pending,
  subtasks_of,
}
use please_hire_me.Warrant.Orchestrator.Headings.{next_section-total}
use please_hire_me.Warrant.Plane.{integrate, is_human}
use please_hire_me.Warrant.Plane.Histories.{
  Step, Reached, start, next, approved_by_owner, integrate-approved,
}

abbrev draw : ℕ → Text
draw n = n ∷ []

abbrev same_case : Text → Text
same_case t = t

abbrev chief : HumanPrincipal
chief = record { id = orchestrator_id; handle = codes "orchestrator"; display_name = codes "You" }

abbrev people : Registry
people = record {
  humans = (orchestrator_id, chief) ∷ [];
  by_handle = [];
  warrants = [];
  sessions =
      (codes "s1", record { token = codes "s1"; human_id = orchestrator_id; issued_at = 1 }) ∷ [];
}

abbrev empty_plane : Orchestrator
empty_plane = record { tasks = []; subtasks = []; registry = people; drawn = 0 }

abbrev wanted : PlanInput
wanted = record {
  title = codes "t";
  created_by = orchestrator_id;
  owners = codes "human:alice" ∷ [];
  max_subtasks = some 2;
  warrant_ttl_ms = none;
  shared_paths = some (codes "n" ∷ []);
}

abbrev models : ModelTiers
models = record { fast = codes "f"; balanced = codes "b"; deep = codes "d" }

-- Two parts of the same title.
abbrev twice : Text → ℕ → List SubtaskProposal
twice title most =
    record { title = title; description = []; paths = codes "x" ∷ [] }
    ∷ record { title = title; description = []; paths = codes "y" ∷ [] }
    ∷ []

abbrev planned_twice : Orchestrator
planned_twice = (plan draw same_case models 10 twice wanted empty_plane).0

abbrev made_task : Task
made_task = record {
  id = codes "task_" ++ draw 0;
  title = codes "t";
  created_by = orchestrator_id;
  created_at = 10;
  subtask_ids = (codes "sub_" ++ draw 1) ∷ (codes "sub_" ++ draw 4) ∷ [];
  shared_paths = codes "n" ∷ [];
  state = planned;
}

abbrev part : ℕ → Text → Text → Subtask
part n path section = record {
  id = codes "sub_" ++ draw n;
  task_id = codes "task_" ++ draw 0;
  title = codes "t";
  description = [];
  owner_id = codes "human:alice";
  agent_id = codes "agent_" ++ draw (n + 1);
  model = codes "b";
  paths = path ∷ [];
  section = some section;
  section_doc = some (codes "n");
  state = SubtaskState.assigned;
  warrant_id = some (codes "wrt_" ++ draw (n + 2));
  approved_by = none;
  updated_at = 10;
}

abbrev parts : List Subtask
parts = part 1 (codes "x") (codes "## t") ∷ part 4 (codes "y") (codes "## t (2)") ∷ []

-- Without a name twice a heading is taken as it is, and the second gets a number.
numbered : next_section (codes "## a" ∷ []) (codes "a") ≡ some (codes "## a (2)")
unfolding next_section text_eq please_hire_me.Prelude.decimal
numbered = refl

next_section-total_example :
    (heading : Text) × (next_section (codes "## a" ∷ codes "## a (2)" ∷ []) (codes "a")
      ≡ some heading)
    × (any (text_eq heading) (codes "## a" ∷ codes "## a (2)" ∷ []) ≡ false)
next_section-total_example = next_section-total (codes "## a" ∷ codes "## a (2)" ∷ []) (codes "a")

-- Both parts are handed in, and Alice approves them.
handed_in : Orchestrator
handed_in =
    (set_state 30 (codes "sub_" ++ draw 4) submitted
      (set_state 20 (codes "sub_" ++ draw 1) submitted planned_twice).0).0

alice_approves : Orchestrator
alice_approves =
    (approve 50 (codes "sub_" ++ draw 4) (codes "human:alice")
      (approve 40 (codes "sub_" ++ draw 1) (codes "human:alice") handed_in).0).0

approved-Reached : Reached draw same_case models alice_approves
unfolding alice_approves handed_in
approved-Reached =
    next
      (next
        (next
          (next (next (start people) (Step.plans 10 twice wanted empty_plane))
            (Step.works 20 (codes "sub_" ++ draw 1) submitted _ refl))
          (Step.works 30 (codes "sub_" ++ draw 4) submitted _ refl))
        (Step.approves 40 (codes "sub_" ++ draw 1) (codes "human:alice") _))
      (Step.approves 50 (codes "sub_" ++ draw 4) (codes "human:alice") _)

approved_part : Subtask
approved_part = record (part 1 (codes "x") (codes "## t")) {
  state = approved;
  approved_by = some (codes "human:alice");
  updated_at = 40;
}

part_approved : lookup (codes "sub_" ++ draw 1) alice_approves.subtasks ≡ some approved_part
unfolding lookup alice_approves approve handed_in set_state plan
    please_hire_me.Warrant.Orchestrator.assign_all please_hire_me.Warrant.Orchestrator.assign
    please_hire_me.Prelude.insert text_eq approved_part
part_approved = refl

is_done : is_pending approved_part.state ≡ false
unfolding approved_part
is_done = refl

approved_by_owner_example : approved_part.approved_by ≡ some approved_part.owner_id
approved_by_owner_example =
    approved_by_owner draw same_case models alice_approves (codes "sub_" ++ draw 1) approved_part
      approved-Reached part_approved is_done

abbrev whole : Orchestrator
whole = (integrate 60 (some (codes "s1")) (codes "task_" ++ draw 0) alice_approves).0

abbrev finished : Task
finished = record made_task { state = TaskState.integrated }

integrates :
    integrate 60 (some (codes "s1")) (codes "task_" ++ draw 0) alice_approves
    ≡ (whole, some finished)
unfolding integrate resolve_session alice_approves approve lookup handed_in set_state plan
    please_hire_me.Warrant.Orchestrator.assign_all please_hire_me.Warrant.Orchestrator.assign
    please_hire_me.Prelude.insert text_eq please_hire_me.Warrant.Plane.check
    please_hire_me.Warrant.Resources.is_integration_branch
    please_hire_me.Warrant.Orchestrator.all_approved
    please_hire_me.Warrant.Orchestrator.mark_integrated
integrates = refl

integrate-approved_example :
    (is_human (resolve_session (some (codes "s1")) alice_approves.registry) orchestrator_id ≡ true)
    × (0 < length (subtasks_of (codes "task_" ++ draw 0) alice_approves))
    × All
        (λ s. (is_pending s.state ≡ false) × (s.approved_by ≡ some s.owner_id))
        (subtasks_of (codes "task_" ++ draw 0) alice_approves)
integrate-approved_example =
    integrate-approved draw same_case models 60 (some (codes "s1")) (codes "task_" ++ draw 0)
      alice_approves whole finished approved-Reached integrates
