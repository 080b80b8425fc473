-- ===== src/Review/Types.antt =====
-- apps/server/src/review/types.ts.
use please_hire_me.Prelude.{ℕ, Option, List, Text}

pub data CommentStatus : Type 0 where
  pending in_progress addressed resolved stale conflict failed blocked : CommentStatus

pub record ReviewComment : Type 0 where
  pub id : Text
  pub doc_id : Text
  pub base_version : ℕ
  pub start_line : ℕ
  pub end_line : ℕ
  pub selected_text : Text
  pub selected_text_hash : Text
  pub body : Text
  pub responsible_agent_id : Text
  pub created_by_human_id : Text
  pub created_by_agent_id : Option Text
  pub rounds : ℕ
  pub agent_resolved : List Text
  pub status : CommentStatus
  pub last_reiteration_run_id : Option Text
  pub created_at : ℕ
  pub updated_at : ℕ

pub data ReiterationStatus : Type 0 where
  queued running written merged conflict denied leased failed no_change : ReiterationStatus

pub record ReiterationRun : Type 0 where
  pub id : Text
  pub doc_id : Text
  pub agent_id : Text
  pub human_id : Text
  pub comment_ids : List Text
  pub base_version : ℕ
  pub status : ReiterationStatus
  pub resulting_version : Option ℕ
  pub error : Option Text
  pub created_at : ℕ
  pub completed_at : Option ℕ

pub data ReviewEventType : Type 0 where
  comment_created comment_resolved comment_stale reiteration_started reiteration_completed
        reiteration_failed :
      ReviewEventType

pub data ActorType : Type 0 where
  human agent system : ActorType

-- The values that the sentence of a summary is put together from.
pub data EventSummary : Type 0 where
  routed : ℕ → ℕ → Text → EventSummary
  both_settled agreed_settled lines_changed human_resolved : ℕ → ℕ → EventSummary
  sent : ℕ → Text → EventSummary
  reiterated : ReiterationStatus → Option ℕ → EventSummary

pub record ReviewEvent : Type 0 where
  pub id : Text
  pub sequence : ℕ
  pub doc_id : Text
  pub actor_type : ActorType
  pub actor_id : Text
  pub summary : EventSummary
  pub type : ReviewEventType
  pub created_at : ℕ
