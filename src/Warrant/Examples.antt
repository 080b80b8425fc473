-- ===== src/Warrant/Examples.antt =====
-- Warrants, shares and decisions of a small workspace.
use please_hire_me.Prelude.{
  ℕ, suc, ◌+◌, ◌≡◌, ◌≢◌, ◌⊎◌, ◌↔◌, ◌≤◌, ◌<◌, refl, inl, inr, Bool, true, false, Option, none, some,
  List, [], ◌∷◌, ◌++◌, arith, if◌then◌else◌, In, All, length, Text, codes, text_eq, lookup,
  join_with,
}
use please_hire_me.Warrant.Types.{
  HumanPrincipal, WarrantAgentPrincipal, Warrant, WarrantScope, WarrantAction, subtask, share,
  Session, ShareRole, viewer, commenter, editor, scopes_for_role, ShareGrant,
}
use please_hire_me.Warrant.Resources.{covers}
use please_hire_me.Warrant.Resources.Covering.{Covered, covers_iff}
use please_hire_me.Warrant.Policy.{AuthzRequest, allow, authorize}
use please_hire_me.Warrant.Policy.Decides.{Permitted, authorize_iff}
use please_hire_me.Warrant.Policy.Attenuation.{Narrower, with_warrant, authorize_attenuates}
use please_hire_me.Warrant.Registry.{Registry, resolve_session, open_session, close_session, revoke}
use please_hire_me.Warrant.Registry as Registry
use please_hire_me.Warrant.Registry.Revocation.{Op, revokes, run, run-RevokedAt}

abbrev ada : HumanPrincipal
ada = record { id = codes "human:ada"; handle = codes "ada"; display_name = codes "Ada" }

abbrev ben : HumanPrincipal
ben = record { id = codes "human:ben"; handle = codes "ben"; display_name = codes "Ben" }

abbrev warrant_of_ada : List WarrantScope → List Text → Option ℕ → Warrant
warrant_of_ada scopes resources revoked_at = record {
  id = codes "wrt_1";
  human_id = codes "human:ada";
  agent_id = codes "agent";
  subtask_id = codes "s1";
  origin = subtask;
  granted_by = none;
  scopes = scopes;
  resources = resources;
  issued_at = 0;
  expires_at = 100;
  revoked_at = revoked_at;
  revoked_reason = none;
}

abbrev wide : Warrant
wide =
    warrant_of_ada (WarrantScope.workspace_read ∷ WarrantScope.workspace_write ∷ [])
      (codes "repo:docs" ∷ []) none

abbrev narrow : Warrant
narrow = warrant_of_ada (WarrantScope.workspace_write ∷ []) (codes "repo:docs/a.md" ∷ []) none

abbrev agent_of_ada : WarrantAgentPrincipal
agent_of_ada = record {
  agent_id = codes "agent";
  owner_id = codes "human:ada";
  warrant_id = codes "wrt_1";
  scopes = wide.scopes;
}

abbrev request : AuthzRequest
request = record {
  human = some ada;
  agent = some agent_of_ada;
  warrant = some wide;
  action = WarrantAction.workspace_write;
  resource = codes "repo:docs/a.md";
  facts = record {
    now = 50;
    resource_owner_id = none;
    is_orchestrator = false;
    all_subtasks_approved = false;
    pending_subtask_ids = [];
  };
}

authorize_iff_example : ((authorize request).decision ≡ allow) ↔ Permitted request
authorize_iff_example = authorize_iff request

narrow_allowed : (authorize (with_warrant request narrow)).decision ≡ allow
unfolding authorize text_eq please_hire_me.Warrant.Policy.missing_scope
    please_hire_me.Warrant.Types.has_scope please_hire_me.Warrant.Policy.other_owner
    please_hire_me.Warrant.Policy.covered covers
narrow_allowed = refl

covers_docs : covers (codes "repo:docs") (codes "repo:docs/a.md") ≡ true
unfolding covers text_eq please_hire_me.Prelude.starts_with please_hire_me.Prelude.ends_with
covers_docs = refl

covers_root : covers (codes "repo:") (codes "repo:docs") ≡ true
unfolding covers text_eq please_hire_me.Prelude.starts_with
covers_root = refl

narrow_scopes : (s : WarrantScope) → In s narrow.scopes → In s wide.scopes
narrow_scopes s (inl e) = inr (inl e)
narrow_scopes s (inr m) = elim m [ ]

narrow_resources :
    (g : Text) → In g narrow.resources → (h : Text) × In h wide.resources × (covers h g ≡ true)
narrow_resources g (inl e) = (codes "repo:docs", inl refl, rw e covers_docs)
narrow_resources g (inr m) = elim m [ ]

narrower : Narrower narrow wide
narrower = record {
  agent = refl;
  live = λ e. refl;
  sooner = omega arith;
  scopes = narrow_scopes;
  resources = narrow_resources;
}

authorize_attenuates_example : (authorize (with_warrant request wide)).decision ≡ allow
authorize_attenuates_example = authorize_attenuates request narrow wide narrower narrow_allowed

covers_iff_example :
    (covers (codes "repo:docs") (codes "repo:docs/a.md") ≡ true)
    ↔ Covered (codes "repo:docs") (codes "repo:docs/a.md")
covers_iff_example = covers_iff (codes "repo:docs") (codes "repo:docs/a.md")

abbrev token : Text
token = codes "t1"

abbrev registry_with : Warrant → Registry
registry_with w = record {
  humans = (ada.id, ada) ∷ (ben.id, ben) ∷ [];
  by_handle = (ada.handle, ada.id) ∷ (ben.handle, ben.id) ∷ [];
  warrants = (w.id, w) ∷ [];
  sessions = (token, record { token = token; human_id = ada.id; issued_at = 0 }) ∷ [];
}

abbrev dead : Warrant
dead = warrant_of_ada wide.scopes wide.resources (some 40)

abbrev later : List (ℕ × Op)
later = (60, revokes (codes "wrt_1") ada.id (codes "again")) ∷ []

run-RevokedAt_example :
    (w : Warrant) × (lookup (codes "wrt_1") (run later (registry_with dead)).warrants ≡ some w)
    × (w.revoked_at ≡ some 40)
    × ((now : ℕ) → Registry.is_live now w ≡ false)
unfolding lookup text_eq
run-RevokedAt_example =
    run-RevokedAt (codes "wrt_1") 40 later (registry_with dead) (tt, tt) (dead, refl, refl)
