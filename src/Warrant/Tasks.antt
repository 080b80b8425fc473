-- ===== src/Warrant/Tasks.antt =====
-- apps/server/src/warrant/types.ts: tasks, and the subtasks that they are split into.
use please_hire_me.Prelude.{ℕ, Option, List, Text}

pub data SubtaskState : Type 0 where
  assigned in_progress submitted approved integrated blocked : SubtaskState

pub record Subtask : Type 0 where
  pub id : Text
  pub task_id : Text
  pub title : Text
  pub description : Text
  pub owner_id : Text
  pub agent_id : Text
  pub model : Text
  pub paths : List Text
  pub section : Option Text
  pub section_doc : Option Text
  pub state : SubtaskState
  pub warrant_id : Option Text
  pub approved_by : Option Text
  pub updated_at : ℕ

pub data TaskState : Type 0 where
  planned running integrated : TaskState

pub record Task : Type 0 where
  pub id : Text
  pub title : Text
  pub created_by : Text
  pub created_at : ℕ
  pub subtask_ids : List Text
  pub shared_paths : List Text
  pub state : TaskState

-- What a splitter proposes (splitter.ts).
pub record SubtaskProposal : Type 0 where
  pub title : Text
  pub description : Text
  pub paths : List Text
