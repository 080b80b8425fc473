-- ===== src/Review/Authored/Examples.antt =====
-- A turn of Ben, who has a subtask and may comment.
use please_hire_me.Prelude.{
  ℕ, ◌≡◌, ◌≤◌, refl, Option, none, some, List, [], ◌∷◌, length, All, codes,
}
use please_hire_me.Review.State.{empty_review}
use please_hire_me.Review.Examples.{draw, plain_hash, pages}
use please_hire_me.Review.Authored.{
  AuthoredComment, Match, ApplyAuthoredInput, no_such_comment, authored_comments, authored_resolves,
  apply_authored,
}
use please_hire_me.Review.Authored.Turns.{IsUsable, authored_comments-bounded}
use please_hire_me.Warrant.Types.{Warrant, WarrantScope, WarrantOrigin}
use please_hire_me.Warrant.Tasks.{Subtask, SubtaskState}
use please_hire_me.Warrant.Orchestrator.{Orchestrator}

abbrev subtask : Subtask
subtask = record {
  id = codes "a";
  task_id = codes "t";
  title = [];
  description = [];
  owner_id = codes "eve";
  agent_id = codes "ben";
  model = codes "m";
  paths = [];
  section = none;
  section_doc = none;
  state = SubtaskState.assigned;
  warrant_id = none;
  approved_by = none;
  updated_at = 0;
}

abbrev warrant : Warrant
warrant = record {
  id = codes "w1";
  human_id = codes "eve";
  agent_id = codes "ben";
  subtask_id = codes "a";
  origin = WarrantOrigin.subtask;
  granted_by = none;
  scopes = WarrantScope.comment_write ∷ [];
  resources = codes "repo:doc" ∷ [];
  issued_at = 0;
  expires_at = 100;
  revoked_at = none;
  revoked_reason = none;
}

abbrev plane : Orchestrator
plane = record {
  tasks = [];
  subtasks = (codes "a", subtask) ∷ [];
  registry = record {
    humans = [];
    by_handle = [];
    warrants = (codes "w1", warrant) ∷ [];
    sessions = [];
  };
  drawn = 0;
}

-- The second match repeats the first, and the third has no text.
abbrev matches : List Match
matches = (1, (1, codes "why?")) ∷ (1, (1, codes " why? ")) ∷ (2, (1, codes " ")) ∷ []

abbrev why : AuthoredComment
why = record { start_line = 1; end_line = 1; body = codes "why?" }

once : authored_comments matches [] [] ≡ why ∷ []
unfolding authored_comments please_hire_me.Prelude.text_eq
once = refl

resolved_once : authored_resolves (2 ∷ 0 ∷ 2 ∷ 1 ∷ []) [] ≡ 2 ∷ 1 ∷ []
unfolding authored_resolves
resolved_once = refl

abbrev input : ApplyAuthoredInput
input = record {
  doc_id = codes "doc";
  agent_id = codes "ben";
  resolves = 1 ∷ [];
  comments = why ∷ [];
  answering = [];
}

asked_one : length (apply_authored draw plain_hash 20 pages plane input empty_review).0.comments ≡ 1
unfolding apply_authored please_hire_me.Warrant.Registry.warrant_for_agent
    please_hire_me.Prelude.text_eq please_hire_me.Warrant.Policy.missing_scope
    please_hire_me.Warrant.Types.has_scope please_hire_me.Warrant.Policy.other_owner
    please_hire_me.Warrant.Resources.workspace_resource please_hire_me.Warrant.Policy.covered
    please_hire_me.Warrant.Resources.covers please_hire_me.Prelude.trim
    please_hire_me.Prelude.lookup please_hire_me.Prelude.split_on
    please_hire_me.Concord.Provenance.responsible_agents
    please_hire_me.Concord.Store.Views.provenance_of please_hire_me.Prelude.insert
asked_one = refl

told : (apply_authored draw plain_hash 20 pages plane input empty_review).1 ≡ no_such_comment 1 ∷ []
unfolding apply_authored please_hire_me.Warrant.Registry.warrant_for_agent
    please_hire_me.Prelude.text_eq please_hire_me.Warrant.Policy.missing_scope
    please_hire_me.Warrant.Types.has_scope please_hire_me.Warrant.Policy.other_owner
    please_hire_me.Warrant.Resources.workspace_resource please_hire_me.Warrant.Policy.covered
    please_hire_me.Warrant.Resources.covers please_hire_me.Prelude.trim
    please_hire_me.Prelude.lookup please_hire_me.Prelude.split_on
    please_hire_me.Concord.Provenance.responsible_agents
    please_hire_me.Concord.Store.Views.provenance_of
told = refl

authored_comments-bounded_example :
    (length (authored_comments matches [] []) ≤ 3) × All IsUsable (authored_comments matches [] [])
authored_comments-bounded_example = authored_comments-bounded matches
