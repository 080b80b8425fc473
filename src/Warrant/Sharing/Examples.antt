-- ===== src/Warrant/Sharing/Examples.antt =====
-- A share of a small workspace.
use please_hire_me.Prelude.{
  ℕ, suc, ◌≡◌, ◌≢◌, ◌⊎◌, ◌↔◌, ◌<◌, refl, inl, inr, Bool, true, false, Option, none, some, List, [],
  ◌∷◌, ◌++◌, arith, In, length, Text, codes, lookup, text_eq, Bool-cases, subst, sym,
}
use please_hire_me.Warrant.Types.{
  HumanPrincipal, Warrant, WarrantScope, subtask, share, ShareRole, viewer, commenter, editor,
  scopes_for_role, ShareGrant,
}
use please_hire_me.Warrant.Registry.{Registry}
use please_hire_me.Warrant.Registry as Registry
use please_hire_me.Warrant.Sharing.{
  Shares, GrantInput, held_scopes, can_share, max_shareable_role, attach_agent, revoke, is_live,
}
use please_hire_me.Warrant.Sharing.Holdings.{MayShare, can_share_iff}
use please_hire_me.Warrant.Sharing.Grants.{revoke_withdraws, Minted, Bound}
use please_hire_me.Warrant.Sharing.Minting.{attach_agent-Bound}

abbrev ada : HumanPrincipal
ada = record { id = codes "human:ada"; handle = codes "ada"; display_name = codes "Ada" }

abbrev ben : HumanPrincipal
ben = record { id = codes "ben"; handle = codes "ben"; display_name = codes "Ben" }

abbrev doc : Text
doc = codes "paper.md"

abbrev warrant_of_ada : Warrant
warrant_of_ada = record {
  id = codes "wrt_1";
  human_id = codes "human:ada";
  agent_id = codes "agent";
  subtask_id = codes "s1";
  origin = subtask;
  granted_by = none;
  scopes =
      WarrantScope.workspace_read ∷ WarrantScope.comment_write ∷ WarrantScope.workspace_write ∷ [];
  resources = codes "repo:" ∷ [];
  issued_at = 0;
  expires_at = 100;
  revoked_at = none;
  revoked_reason = none;
}

abbrev registry : Registry
registry = record {
  humans = (ada.id, ada) ∷ (ben.id, ben) ∷ [];
  by_handle = (ada.handle, ada.id) ∷ (ben.handle, ben.id) ∷ [];
  warrants = (codes "wrt_1", warrant_of_ada) ∷ [];
  sessions = [];
}

can_share_iff_example :
    ((can_share 50 registry ada.id ben.id doc commenter).allowed ≡ true)
    ↔ MayShare 50 registry ada.id ben.id doc commenter
can_share_iff_example = can_share_iff 50 registry ada.id ben.id doc commenter

offered : max_shareable_role 50 registry ada.id doc ≡ some commenter
unfolding max_shareable_role please_hire_me.Warrant.Types.has_scope held_scopes
    Registry.live_warrants_for_human please_hire_me.Prelude.text_eq
    please_hire_me.Warrant.Resources.covers please_hire_me.Concord.DocResource.doc_resource
    please_hire_me.Prelude.starts_with scopes_for_role
offered = refl

ben_known : lookup ben.id registry.humans ≢ none
unfolding lookup text_eq
ben_known e = cc

ada_not_ben : ada.id ≢ ben.id
ada_not_ben e = cc

more_scopes : length (scopes_for_role commenter) < length (scopes_for_role editor)
unfolding scopes_for_role
more_scopes = omega arith

abbrev share_of_ada : List Text → ShareGrant
share_of_ada ids = record {
  id = codes "shr_1";
  doc_id = doc;
  granted_by = codes "human:ada";
  grantee_id = codes "ben";
  role = viewer;
  issued_at = 10;
  expires_at = 90;
  agent_warrant_ids = ids;
  revoked_at = none;
  revoked_reason = none;
}

abbrev shared : Shares
shared = record { registry = registry; grants = (codes "shr_1", share_of_ada []) ∷ [] }

shared-Minted : Minted shared
unfolding lookup
shared-Minted gid g e id m = elim (Bool-cases (text_eq (codes "shr_1") gid)) [
  | inl same ↦
      let e' : some (share_of_ada []) ≡ some g = rw same at e in
      let h : share_of_ada [] ≡ g = cc in
      elim (subst (λ (t : ShareGrant). In id t.agent_warrant_ids) (sym h) m) [ ]
  | inr other ↦ let e' : none ≡ some g = rw other at e in absurd (cc)
]

abbrev minted : Warrant
minted = record {
  id = codes "wrt_2";
  human_id = codes "ben";
  agent_id = codes "scribe";
  subtask_id = codes "shr_1";
  origin = share;
  granted_by = some (codes "human:ada");
  scopes = WarrantScope.workspace_read ∷ [];
  resources = codes "repo:paper.md" ∷ [];
  issued_at = 50;
  expires_at = 90;
  revoked_at = none;
  revoked_reason = none;
}

attach_run : (attach_agent 50 (codes "2") (codes "shr_1") (codes "scribe") shared).1 ≡ some minted
unfolding attach_agent lookup please_hire_me.Prelude.text_eq Registry.issue scopes_for_role
    please_hire_me.Concord.DocResource.doc_resource
attach_run = refl

found_grant : lookup (codes "shr_1") shared.grants ≡ some (share_of_ada [])
unfolding lookup please_hire_me.Prelude.text_eq
found_grant = refl

new_id : lookup (codes "wrt_" ++ codes "2") registry.warrants ≡ none
unfolding lookup please_hire_me.Prelude.text_eq
new_id = refl

attach_agent-Bound_example :
    (codes "scribe" ≡ codes "scribe")
    × (Registry.is_live 50 minted ≡ true)
    × (is_live 50 (share_of_ada []) ≡ true)
    × Bound (share_of_ada []) minted
attach_agent-Bound_example =
    attach_agent-Bound 50 (codes "2") (codes "shr_1") (codes "scribe") shared (share_of_ada [])
      minted shared-Minted found_grant attach_run

abbrev share_input : GrantInput
share_input = record {
  doc_id = doc;
  granted_by = codes "human:ada";
  grantee_id = codes "ben";
  role = commenter;
  ttl_ms = none;
}

abbrev attached : Shares
attached = record {
  registry = record registry { warrants = (codes "wrt_2", minted) ∷ [] };
  grants = (codes "shr_1", share_of_ada (codes "wrt_2" ∷ [])) ∷ [];
}

abbrev withdrawn : Warrant
withdrawn = record minted {
  revoked_at = some 60;
  revoked_reason = some (codes "Share revoked: done");
}

withdrawn_run :
    lookup (codes "wrt_2") (revoke 60 (codes "shr_1") (codes "done") attached).0.registry.warrants
    ≡ some withdrawn
unfolding lookup revoke please_hire_me.Prelude.text_eq Registry.revoke_by_id
    please_hire_me.Prelude.insert
withdrawn_run = refl

attached_grant : lookup (codes "shr_1") attached.grants ≡ some (share_of_ada (codes "wrt_2" ∷ []))
unfolding lookup please_hire_me.Prelude.text_eq
attached_grant = refl

revoke_withdraws_example :
    ((g' : ShareGrant) × (lookup
          (codes "shr_1")
          (revoke 60 (codes "shr_1") (codes "done") attached).0.grants
        ≡ some g')
      × (is_live 61 g' ≡ false))
    × (Registry.is_live 61 withdrawn ≡ false)
revoke_withdraws_example =
    revoke_withdraws 60 61 (codes "shr_1") (codes "done") attached
      (share_of_ada (codes "wrt_2" ∷ [])) (codes "wrt_2") withdrawn attached_grant (inl refl)
      withdrawn_run
