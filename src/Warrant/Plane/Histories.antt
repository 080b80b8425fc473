-- ===== src/Warrant/Plane/Histories.antt =====
-- Every sequence of operations of the plane on tasks, and what an integration rests on.
use please_hire_me.Prelude.{
  arith, ℕ, ◌<◌, ◌≡◌, refl, inl, inr, Bool, true, false, not, Option, none, some, List, [], ◌∷◌,
  length, Bool-cases, Option-cases, is_some, if◌then◌else◌, Text, lookup, All, lookup-Entries,
}
use please_hire_me.Warrant.Registry.{Registry, resolve_session}
use please_hire_me.Warrant.Tasks.{SubtaskState, Subtask, SubtaskProposal, Task, submitted}
use please_hire_me.Warrant.ModelPolicy.{ModelTiers}
use please_hire_me.Warrant.Orchestrator.{
  PlanInput, Orchestrator, orchestrator_id, plan, set_state, approve, is_pending, subtasks_of,
  mark_integrated,
}
use please_hire_me.Warrant.Plane.{
  check, is_human, is_allowed, submit, integrate, integration, submission,
}
use please_hire_me.Warrant.Plane.Approvals.{
  IsApproved, AreApproved, Ready, plan-AreApproved, set_state-AreApproved, approve-AreApproved,
  allowed-all_approved, all_approved-Ready, integrate_all-Entries,
}

-- `works` is `setState` with a state that its callers give, and `delegates` any change of the registry.
pub data Step (uuid : ℕ → Text) (to_lower : Text → Text) (tiers : ModelTiers)
    : Orchestrator → Orchestrator → Type 0 where
  plans :
      (now : ℕ) (split : Text → ℕ → List SubtaskProposal) (input : PlanInput) (o : Orchestrator)
      → Step uuid to_lower tiers o (plan uuid to_lower tiers now split input o).0
  works :
      (now : ℕ) (id : Text) (state : SubtaskState) (o : Orchestrator)
      → is_pending state ≡ true
      → Step uuid to_lower tiers o (set_state now id state o).0
  submits :
      (now : ℕ) (id : Text) (o : Orchestrator) → Step uuid to_lower tiers o (submit now id o).0
  approves :
      (now : ℕ) (id human : Text) (o : Orchestrator)
      → Step uuid to_lower tiers o (approve now id human o).0
  integrates :
      (now : ℕ) (token : Option Text) (task : Text) (o : Orchestrator)
      → Step uuid to_lower tiers o (integrate now token task o).0
  delegates :
      (r : Registry) (o : Orchestrator) → Step uuid to_lower tiers o (record o { registry = r })

pub data Reached (uuid : ℕ → Text) (to_lower : Text → Text) (tiers : ModelTiers)
    : Orchestrator → Type 0 where
  start :
      (r : Registry)
      → Reached uuid to_lower tiers (record { tasks = []; subtasks = []; registry = r; drawn = 0 })
  next :
      {o p : Orchestrator}
      → Reached uuid to_lower tiers o
      → Step uuid to_lower tiers o p
      → Reached uuid to_lower tiers p

if_keeps : {A : Type 0} (Q : A → Type 0) (b : Bool) (x y : A) → Q x → Q y → Q (if b then x else y)
if_keeps Q true x y p q = p
if_keeps Q false x y p q = q

submit-AreApproved :
    (now : ℕ) (id : Text) (o : Orchestrator) → AreApproved o → AreApproved (submit now id o).0
unfolding submit
submit-AreApproved now id o h = elim (Option-cases (lookup id o.subtasks)) [
  | inl e ↦ rw (e, submit) h
  | inr (s, e) ↦
      rw (e, submit)
        (if_keeps (λ (r : Orchestrator × Option Subtask). AreApproved r.0)
          (is_allowed (check now (submission s.agent_id id) o).decision)
          (set_state now id submitted o) (o, none) (set_state-AreApproved now id submitted o refl h)
          h)
]

mark_integrated-AreApproved :
    (now : ℕ) (id : Text) (o : Orchestrator)
    → AreApproved o
    → All Ready (subtasks_of id o)
    → AreApproved (mark_integrated now id o).0
unfolding mark_integrated
mark_integrated-AreApproved now id o h ready = elim (Option-cases (lookup id o.tasks)) [
  | inl e ↦ rw (e, mark_integrated) h
  | inr (t, e) ↦
      rw (e, mark_integrated) (integrate_all-Entries now (subtasks_of id o) o.subtasks ready h)
]

three_tests :
    {A : Type 0} (Q : A → Type 0) (a b c : Bool) (x y : A)
    → Q x
    → (c ≡ true → Q y)
    → Q (if a then x else if b then x else if c then y else x)
three_tests Q true b c x y p q = p
three_tests Q false true c x y p q = p
three_tests Q false false true x y p q = q refl
three_tests Q false false false x y p q = p

integrate-AreApproved :
    (now : ℕ) (token : Option Text) (task : Text) (o : Orchestrator)
    → AreApproved o
    → AreApproved (integrate now token task o).0
unfolding integrate
integrate-AreApproved now token task o h =
    three_tests (λ (r : Orchestrator × Option Task). AreApproved r.0)
      (not (is_some (resolve_session token o.registry))) (not (is_some (lookup task o.tasks)))
      (is_allowed (check now (integration token task) o).decision) (o, none)
      (mark_integrated now task o) h
      λ allowed.
        let (mine, all) = allowed-all_approved now token task o allowed in
        mark_integrated-AreApproved now task o h (all_approved-Ready task o h all).1

Step-AreApproved :
    {uuid : ℕ → Text} {to_lower : Text → Text} {tiers : ModelTiers} {o p : Orchestrator}
    → Step uuid to_lower tiers o p
    → AreApproved o
    → AreApproved p
Step-AreApproved {uuid} {to_lower} {tiers} (plans now split input o) h =
    plan-AreApproved uuid to_lower tiers now split input o h
Step-AreApproved (works now id state o waits) h = set_state-AreApproved now id state o waits h
Step-AreApproved (submits now id o) h = submit-AreApproved now id o h
Step-AreApproved (approves now id human o) h = approve-AreApproved now id human o h
Step-AreApproved (integrates now token task o) h = integrate-AreApproved now token task o h
Step-AreApproved (delegates r o) h = h

Reached-AreApproved :
    {uuid : ℕ → Text} {to_lower : Text → Text} {tiers : ModelTiers} {o : Orchestrator}
    → Reached uuid to_lower tiers o
    → AreApproved o
Reached-AreApproved (start r) = _
Reached-AreApproved (next r st) = Step-AreApproved st (Reached-AreApproved r)

owners :
    (ss : List Subtask)
    → All Ready ss
    → All (λ s. (is_pending s.state ≡ false) × (s.approved_by ≡ some s.owner_id)) ss
owners [] _ = _
owners (s ∷ ss) ((a, done), h) =
    ((done, elim a.by_owner [ inl waiting ↦ cc | inr owner ↦ owner ]), owners ss h)

-- However plans, work, submissions, approvals, integrations and changes of the registry follow one
-- another from an empty orchestrator, a subtask that stands as approved or integrated was approved
-- by the human who owns it. The states that callers set by hand are others than these two.
pub approved_by_owner :
    (uuid : ℕ → Text) (to_lower : Text → Text) (tiers : ModelTiers) (o : Orchestrator) (id : Text)
    (s : Subtask)
    → Reached uuid to_lower tiers o
    → lookup id o.subtasks ≡ some s
    → is_pending s.state ≡ false
    → s.approved_by ≡ some s.owner_id
approved_by_owner uuid to_lower tiers o id s r e done =
    elim (lookup-Entries IsApproved id s o.subtasks (Reached-AreApproved r) e).by_owner [
      | inl waiting ↦ cc
      | inr owner ↦ owner
    ]

-- An integration that is carried out was asked for in the session of the orchestrator's human, of a
-- task with one subtask or more, each of which its owner had approved.
pub integrate-approved :
    (uuid : ℕ → Text) (to_lower : Text → Text) (tiers : ModelTiers) (now : ℕ) (token : Option Text)
    (task : Text) (o t : Orchestrator) (done : Task)
    → Reached uuid to_lower tiers o
    → integrate now token task o ≡ (t, some done)
    → (is_human (resolve_session token o.registry) orchestrator_id ≡ true)
      × (0 < length (subtasks_of task o))
      × All
          (λ s. (is_pending s.state ≡ false) × (s.approved_by ≡ some s.owner_id))
          (subtasks_of task o)
unfolding integrate
integrate-approved uuid to_lower tiers now token task o t done r e =
    elim (Bool-cases (is_allowed (check now (integration token task) o).decision)) [
      | inr refused ↦ absurd (ground arith)
      | inl allowed ↦
          let (mine, all) = allowed-all_approved now token task o allowed in
          let (some_there, ready) = all_approved-Ready task o (Reached-AreApproved r) all in
          (mine, some_there, owners (subtasks_of task o) ready)
    ]
