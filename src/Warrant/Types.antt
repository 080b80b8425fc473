-- ===== src/Warrant/Types.antt =====
-- apps/server/src/warrant/types.ts. An instant is a number of milliseconds, where the source holds
-- the ISO string of that instant.
use please_hire_me.Prelude.{ℕ, Bool, true, false, Option, List, [], ◌∷◌, Text, any}

pub record HumanPrincipal : Type 0 where
  pub id : Text
  pub handle : Text
  pub display_name : Text

pub data WarrantScope : Type 0 where
  workspace_read workspace_write model_invoke merge_propose comment_write : WarrantScope

pub data WarrantAction : Type 0 where
  workspace_read workspace_write merge_propose merge_integrate task_read comment_write :
      WarrantAction

pub data WarrantOrigin : Type 0 where
  subtask share : WarrantOrigin

pub record WarrantAgentPrincipal : Type 0 where
  pub agent_id : Text
  pub owner_id : Text
  pub warrant_id : Text
  pub scopes : List WarrantScope

pub record Warrant : Type 0 where
  pub id : Text
  pub human_id : Text
  pub agent_id : Text
  pub subtask_id : Text
  pub origin : WarrantOrigin
  pub granted_by : Option Text
  pub scopes : List WarrantScope
  pub resources : List Text
  pub issued_at : ℕ
  pub expires_at : ℕ
  pub revoked_at : Option ℕ
  pub revoked_reason : Option Text

pub record Session : Type 0 where
  pub token : Text
  pub human_id : Text
  pub issued_at : ℕ

pub data ShareRole : Type 0 where
  viewer commenter editor : ShareRole

pub record ShareGrant : Type 0 where
  pub id : Text
  pub doc_id : Text
  pub granted_by : Text
  pub grantee_id : Text
  pub role : ShareRole
  pub issued_at : ℕ
  pub expires_at : ℕ
  pub agent_warrant_ids : List Text
  pub revoked_at : Option ℕ
  pub revoked_reason : Option Text

abbrev pub scope_eq : WarrantScope → WarrantScope → Bool
scope_eq WarrantScope.workspace_read WarrantScope.workspace_read = true
scope_eq WarrantScope.workspace_write WarrantScope.workspace_write = true
scope_eq WarrantScope.model_invoke WarrantScope.model_invoke = true
scope_eq WarrantScope.merge_propose WarrantScope.merge_propose = true
scope_eq WarrantScope.comment_write WarrantScope.comment_write = true
scope_eq _ _ = false

-- `scopes.includes(scope)`.
unfoldable pub has_scope : WarrantScope → List WarrantScope → Bool
has_scope s scopes = any (scope_eq s) scopes

-- `SCOPES_FOR_ROLE`.
unfoldable pub scopes_for_role : ShareRole → List WarrantScope
scopes_for_role viewer = WarrantScope.workspace_read ∷ []
scopes_for_role commenter = WarrantScope.workspace_read ∷ WarrantScope.comment_write ∷ []
scopes_for_role editor =
    WarrantScope.workspace_read ∷ WarrantScope.comment_write ∷ WarrantScope.workspace_write
    ∷ WarrantScope.merge_propose ∷ []
