-- ===== src/Warrant/Sharing.antt =====
-- apps/server/src/warrant/sharing.ts: sharing a document is minting a warrant, later and by the
-- grantee. The grants and the registry are the state; the clock and the identifiers are arguments.
pub mod Holdings
pub mod Roles
pub mod Grants
pub mod Minting
mod Examples
use please_hire_me.Prelude.{
  ℕ, ◌+◌, Bool, true, false, not, ◌&&◌, ◌||◌, Option, none, some, List, [], ◌∷◌, ◌++◌,
  if◌then◌else◌, ltb, is_none, is_some, or_else, keep_if, find?, any, all, length, Text, codes,
  text_eq, Assoc, lookup, insert, values,
}
use please_hire_me.Concord.DocResource.{doc_resource}
use please_hire_me.Warrant.Types.{
  Warrant, WarrantScope, WarrantOrigin, share, ShareRole, viewer, commenter, editor, ShareGrant,
  scope_eq, has_scope, scopes_for_role,
}
use please_hire_me.Warrant.Resources.{covers}
use please_hire_me.Warrant.Registry.{
  Registry, live_warrants_for_human, warrant_of, issue, revoke_by_id,
}
use please_hire_me.Warrant.Registry

abbrev pub default_grant_ttl_ms : ℕ
default_grant_ttl_ms = 86_400_000

pub data ShareRefusal : Type 0 where
  not_a_writer exceeds_holdings self_share unknown_grantee : ShareRefusal

-- "WB-13.share-self", "WB-13.share-unknown-grantee", "WB-14.share-requires-write",
-- "WB-15.share-exceeds-holdings" and "WB-0.share-within-holdings", in this order.
pub data ShareRule : Type 0 where
  share_self share_unknown_grantee share_requires_write share_exceeds_holdings
        share_within_holdings :
      ShareRule

-- The values that a reason names.
pub data ShareReason : Type 0 where
  no_op : ShareReason
  no_such_person : Text → ShareReason
  holds_only : List WarrantScope → Text → ShareReason
  needs : ShareRole → List WarrantScope → ShareReason
  holds_role : Text → ShareRole → Text → ShareReason

pub record ShareDecision : Type 0 where
  pub allowed : Bool
  pub rule_id : ShareRule
  pub reason : ShareReason
  pub refusal : Option ShareRefusal

-- `held.add(scope)` for each scope of a warrant.
unfoldable pub add_scopes : List WarrantScope → List WarrantScope → List WarrantScope
unfolding has_scope
add_scopes [] held = held
add_scopes (s ∷ scopes) held = add_scopes scopes (if has_scope s held then held else held ++ s ∷ [])

unfoldable pub covers_some : Text → Warrant → Bool
covers_some resource w = any (λ g. covers g resource) w.resources

-- The loop of `heldScopes`.
unfoldable pub collect_scopes : Text → List Warrant → List WarrantScope → List WarrantScope
unfolding add_scopes covers_some
collect_scopes resource [] held = held
collect_scopes resource (w ∷ ws) held =
    collect_scopes resource ws (if covers_some resource w then add_scopes w.scopes held else held)

unfoldable pub held_scopes : ℕ → Registry → Text → Text → List WarrantScope
unfolding collect_scopes
held_scopes now r human_id doc_id =
    collect_scopes (doc_resource doc_id) (live_warrants_for_human now human_id r) []

abbrev pub holds_role_scopes : List WarrantScope → ShareRole → Bool
holds_role_scopes held role = all (λ s. has_scope s held) (scopes_for_role role)

unfoldable pub max_shareable_role : ℕ → Registry → Text → Text → Option ShareRole
max_shareable_role now r human_id doc_id =
    let held = held_scopes now r human_id doc_id in
    if not (has_scope WarrantScope.workspace_write held)
    then none
    else find? (holds_role_scopes held) (editor ∷ commenter ∷ viewer ∷ [])

abbrev pub refuse : ShareRule → ShareReason → ShareRefusal → ShareDecision
refuse rule reason refusal = record {
  allowed = false;
  rule_id = rule;
  reason = reason;
  refusal = some refusal;
}

unfoldable pub can_share : ℕ → Registry → Text → Text → Text → ShareRole → ShareDecision
can_share now r granter_id grantee_id doc_id role =
    if text_eq granter_id grantee_id
    then refuse share_self no_op self_share
    else if is_none (lookup grantee_id r.humans)
    then refuse share_unknown_grantee (no_such_person grantee_id) unknown_grantee
    else let held = held_scopes now r granter_id doc_id in
      if not (has_scope WarrantScope.workspace_write held)
      then refuse share_requires_write (holds_only held (doc_resource doc_id)) not_a_writer
      else let missing = keep_if (λ s. not (has_scope s held)) (scopes_for_role role) in
        if ltb 0 (length missing)
        then refuse share_exceeds_holdings (needs role missing) exceeds_holdings
        else record {
          allowed = true;
          rule_id = share_within_holdings;
          reason = holds_role granter_id role (doc_resource doc_id);
          refusal = none;
        }

-- `ShareRegistry`, with the registry that it refers to.
pub record Shares : Type 0 where
  pub registry : Registry
  pub grants : Assoc ShareGrant

pub record GrantInput : Type 0 where
  pub doc_id : Text
  pub granted_by : Text
  pub grantee_id : Text
  pub role : ShareRole
  pub ttl_ms : Option ℕ

unfoldable pub is_live : ℕ → ShareGrant → Bool
is_live now g = is_none g.revoked_at && ltb now g.expires_at

unfoldable pub for_doc : ℕ → Text → Shares → List ShareGrant
unfolding is_live
for_doc now doc_id s = keep_if (λ g. text_eq g.doc_id doc_id && is_live now g) (values s.grants)

unfoldable pub for_grantee : ℕ → Text → Shares → List ShareGrant
unfolding is_live
for_grantee now human_id s =
    keep_if (λ g. text_eq g.grantee_id human_id && is_live now g) (values s.grants)

unfoldable pub for_doc_and_grantee : ℕ → Text → Text → Shares → Option ShareGrant
unfolding for_doc
for_doc_and_grantee now doc_id grantee_id s =
    find? (λ g. text_eq g.grantee_id grantee_id) (for_doc now doc_id s)

-- The loop of `revoke` over the warrants that the grant minted.
unfoldable pub revoke_all : ℕ → Text → List Text → Registry → Registry
revoke_all now reason [] r = r
revoke_all now reason (id ∷ ids) r =
    revoke_all now reason ids (revoke_by_id now id (codes "Share revoked: " ++ reason) r).0

abbrev pub mark_grant : ℕ → Text → ShareGrant → ShareGrant
mark_grant now reason g =
    if is_some g.revoked_at
    then g
    else record g { revoked_at = some now; revoked_reason = some reason }

unfoldable pub revoke : ℕ → Text → Text → Shares → Shares × Option ShareGrant
unfolding revoke_all
revoke now grant_id reason s = elim (lookup grant_id s.grants) [
  | none ↦ (s, none)
  | some g ↦ (
    record {
      registry = revoke_all now reason g.agent_warrant_ids s.registry;
      grants = insert grant_id (mark_grant now reason g) s.grants;
    },
    some (mark_grant now reason g),
  )
]

abbrev pub role_text : ShareRole → Text
role_text viewer = codes "viewer"
role_text commenter = codes "commenter"
role_text editor = codes "editor"

unfoldable pub new_grant : ℕ → Text → GrantInput → ShareGrant
new_grant now uuid input = record {
  id = codes "shr_" ++ uuid;
  doc_id = input.doc_id;
  granted_by = input.granted_by;
  grantee_id = input.grantee_id;
  role = input.role;
  issued_at = now;
  expires_at = now + or_else input.ttl_ms default_grant_ttl_ms;
  agent_warrant_ids = [];
  revoked_at = none;
  revoked_reason = none;
}

-- The shares after the earlier grant, if there is one, is revoked.
abbrev pub replace_grant : ℕ → GrantInput → Shares → Shares
replace_grant now input s = elim (for_doc_and_grantee now input.doc_id input.grantee_id s) [
  | none ↦ s
  | some old ↦ (revoke now old.id (codes "Replaced by a new grant at " ++ role_text input.role) s).0
]

unfoldable pub grant : ℕ → Text → GrantInput → Shares → Shares × ShareGrant
unfolding new_grant revoke for_doc_and_grantee
grant now uuid input s =
    let s' = replace_grant now input s in
    let g = new_grant now uuid input in (record s' { grants = insert g.id g s'.grants }, g)

-- The live warrant for this Agent among those that the grant minted.
unfoldable pub attached : ℕ → Text → List Text → Registry → Option Warrant
attached now agent_id [] r = none
attached now agent_id (id ∷ ids) r = elim (warrant_of (some id) r) [
  | none ↦ attached now agent_id ids r
  | some w ↦
      if text_eq w.agent_id agent_id && Registry.is_live now w
      then some w
      else attached now agent_id ids r
]

abbrev pub mint_input : Text → ShareGrant → Registry.IssueWarrantInput
mint_input agent_id g = record {
  human_id = g.grantee_id;
  agent_id = agent_id;
  subtask_id = g.id;
  scopes = scopes_for_role g.role;
  resources = doc_resource g.doc_id ∷ [];
  ttl_ms = none;
  origin = some share;
  granted_by = some g.granted_by;
  expires_at = some g.expires_at;
}

unfoldable pub attach_agent : ℕ → Text → Text → Text → Shares → Shares × Option Warrant
unfolding attached is_live
attach_agent now uuid grant_id agent_id s = elim (lookup grant_id s.grants) [
  | none ↦ (s, none)
  | some g ↦
      if not (is_live now g)
      then (s, none)
      else elim (attached now agent_id g.agent_warrant_ids s.registry) [
        | some w ↦ (s, some w)
        | none ↦
            let (r, w) = issue now uuid (mint_input agent_id g) s.registry in
            (
              record {
                registry = r;
                grants =
                    insert grant_id
                      (record g { agent_warrant_ids = g.agent_warrant_ids ++ w.id ∷ [] }) s.grants;
              },
              some w,
            )
      ]
]
