-- ===== src/Warrant/Policy/Decides.antt =====
-- The decision against what a delegation permits.
use please_hire_me.Prelude.{
  ◌<◌, ◌≡◌, ◌≢◌, ◌↔◌, ◌⊎◌, refl, sym, ap, ap₂, ◌∙◌, inl, inr, true, Option, none, some, List, [],
  ◌∷◌, arith, Bool-cases, Option-cases, In, Text, text_eq_iff,
}
use please_hire_me.Warrant.Types.{
  WarrantAgentPrincipal, Warrant, WarrantScope, WarrantAction, has_scope,
}
use please_hire_me.Warrant.Scopes.{has_scope-In, In-has_scope}
use please_hire_me.Warrant.Resources.{covers, is_integration_branch, is_workspace}
use please_hire_me.Warrant.Policy.{
  AuthzRequest, allow, AuthzDecision, scope_for, missing_scope, other_owner, covered,
  authorize_integrate, authorize_scope, authorize_warrant, authorize_agent, is_integrate, authorize,
}

-- What a warrant permits an Agent, written without the order of the tests.
pub record Permits (r : AuthzRequest) (a : WarrantAgentPrincipal) (w : Warrant) : Type 0 where
  pub holder : w.agent_id ≡ a.agent_id
  pub unrevoked : w.revoked_at ≡ none
  pub unexpired : r.facts.now < w.expires_at
  pub scoped : (s : WarrantScope) → scope_for r.action ≡ some s → In s w.scopes
  pub own :
      is_workspace r.resource ≡ true
      → (o : Text) → r.facts.resource_owner_id ≡ some o
      → o ≡ a.owner_id
  pub granted : (g : Text) × In g w.resources × (covers g r.resource ≡ true)

abbrev pub PermitsAgent : AuthzRequest → Type 0
PermitsAgent r =
    (a : WarrantAgentPrincipal) × (w : Warrant) × (r.agent ≡ some a)
    × (r.warrant ≡ some w)
    × Permits r a w

abbrev pub PermitsIntegrate : AuthzRequest → Type 0
PermitsIntegrate r =
    (r.facts.is_orchestrator ≡ true)
    × (is_integration_branch r.resource ≡ true)
    × (r.facts.all_subtasks_approved ≡ true)

abbrev pub Permitted : AuthzRequest → Type 0
Permitted r =
    ((r.action ≡ WarrantAction.merge_integrate) × PermitsIntegrate r)
    ⊎ ((r.action ≢ WarrantAction.merge_integrate) × PermitsAgent r)

covered-In :
    (granted : List Text) (resource : Text)
    → covered granted resource ≡ true
    → (g : Text) × In g granted × (covers g resource ≡ true)
unfolding covered
covered-In [] resource e = cc
covered-In (g ∷ gs) resource e = elim (Bool-cases (covers g resource)) [
  | inl hit ↦ (g, inl refl, hit)
  | inr miss ↦ let (h, m, c) = covered-In gs resource (ground arith) in (h, inr m, c)
]

In-covered :
    (g : Text) (granted : List Text) (resource : Text)
    → In g granted
    → covers g resource ≡ true
    → covered granted resource ≡ true
unfolding covered
In-covered g [] resource m e = elim m [ ]
In-covered g (h ∷ hs) resource (inl same) e =
    let e' : covers h resource ≡ true = rw same at e in ground arith
In-covered g (h ∷ hs) resource (inr m) e = ground (arith, In-covered g hs resource m e)

missing_scope-In :
    (action : WarrantAction) (scopes : List WarrantScope)
    → missing_scope action scopes ≡ none
    → (s : WarrantScope) → scope_for action ≡ some s
    → In s scopes
unfolding missing_scope
missing_scope-In action scopes e s h =
    has_scope-In s scopes (elim (Bool-cases (has_scope s scopes)) [
      | inl here ↦ here
      | inr gone ↦ cc (rw (gone) at (rw (h, missing_scope) at e))
    ])

In-missing_scope :
    (action : WarrantAction) (scopes : List WarrantScope)
    → ((s : WarrantScope) → scope_for action ≡ some s → In s scopes)
    → missing_scope action scopes ≡ none
unfolding missing_scope
In-missing_scope action scopes h = elim (Option-cases (scope_for action)) [
  | inl e ↦ rw (e, missing_scope)
  | inr (s, e) ↦ rw (e, missing_scope) (rw (In-has_scope s scopes (h s e)))
]

other_owner-same :
    (resource : Text) (owner : Option Text) (owner_id : Text)
    → other_owner resource owner owner_id ≡ none
    → is_workspace resource ≡ true
    → (o : Text) → owner ≡ some o
    → o ≡ owner_id
unfolding other_owner
other_owner-same resource none owner_id e w o h = cc
other_owner-same resource (some p) owner_id e w o h = ground (arith, text_eq_iff p owner_id)

same-other_owner :
    (resource : Text) (owner : Option Text) (owner_id : Text)
    → (is_workspace resource ≡ true → (o : Text) → owner ≡ some o → o ≡ owner_id)
    → other_owner resource owner owner_id ≡ none
unfolding other_owner
same-other_owner resource none owner_id h = refl
same-other_owner resource (some p) owner_id h = elim (Bool-cases (is_workspace resource)) [
  | inl w ↦ ground (arith, text_eq_iff p owner_id, h w p refl)
  | inr w ↦ ground arith
]

authorize_scope-allow :
    (r : AuthzRequest) (a : WarrantAgentPrincipal) (w : Warrant)
    → (authorize_scope r a w).decision ≡ allow
    → (missing_scope r.action w.scopes ≡ none)
      × (other_owner r.resource r.facts.resource_owner_id a.owner_id ≡ none)
      × (covered w.resources r.resource ≡ true)
unfolding authorize_scope
authorize_scope-allow r a w e = ground arith

allow-authorize_scope :
    (r : AuthzRequest) (a : WarrantAgentPrincipal) (w : Warrant)
    → missing_scope r.action w.scopes ≡ none
    → other_owner r.resource r.facts.resource_owner_id a.owner_id ≡ none
    → covered w.resources r.resource ≡ true
    → (authorize_scope r a w).decision ≡ allow
unfolding authorize_scope
allow-authorize_scope r a w p q c = ground arith

authorize_warrant-Permits :
    (r : AuthzRequest) (a : WarrantAgentPrincipal) (w : Warrant)
    → (authorize_warrant r a w).decision ≡ allow
    → Permits r a w
unfolding authorize_warrant
authorize_warrant-Permits r a w e =
    let step : (authorize_scope r a w).decision ≡ allow = ground arith in
    let (p, q, c) = authorize_scope-allow r a w step in
    record {
      holder = ground (arith, text_eq_iff w.agent_id a.agent_id);
      unrevoked = ground arith;
      unexpired = ground arith;
      scoped = missing_scope-In r.action w.scopes p;
      own = other_owner-same r.resource r.facts.resource_owner_id a.owner_id q;
      granted = covered-In w.resources r.resource c;
    }

Permits-authorize_warrant :
    (r : AuthzRequest) (a : WarrantAgentPrincipal) (w : Warrant)
    → Permits r a w
    → (authorize_warrant r a w).decision ≡ allow
unfolding authorize_warrant
Permits-authorize_warrant r a w p =
    let held : w.agent_id ≡ a.agent_id = p.holder in
    let live : w.revoked_at ≡ none = p.unrevoked in
    let young : r.facts.now < w.expires_at = p.unexpired in
    let step : (authorize_scope r a w).decision ≡ allow =
      allow-authorize_scope r a w (In-missing_scope r.action w.scopes p.scoped)
        (same-other_owner r.resource r.facts.resource_owner_id a.owner_id p.own)
        (In-covered p.granted.0 w.resources r.resource p.granted.1 p.granted.2) in
    ground (arith, text_eq_iff w.agent_id a.agent_id)

authorize_agent-some :
    (r : AuthzRequest) (a : WarrantAgentPrincipal) (w : Warrant)
    → r.agent ≡ some a
    → r.warrant ≡ some w
    → authorize_agent r r.agent r.warrant ≡ authorize_warrant r a w
unfolding authorize_agent
authorize_agent-some r a w p q = ap₂ (authorize_agent r) p q

authorize_agent-Permits :
    (r : AuthzRequest) → (authorize_agent r r.agent r.warrant).decision ≡ allow → PermitsAgent r
unfolding authorize_agent
authorize_agent-Permits r e = elim (Option-cases r.agent) [
  | inl none_a ↦ cc (rw (none_a, authorize_agent) at e)
  | inr (a, p) ↦ elim (Option-cases r.warrant) [
    | inl none_w ↦ cc (rw (p, none_w, authorize_agent) at e)
    | inr (w, q) ↦ (
      a,
      w,
      p,
      q,
      authorize_warrant-Permits r a w
          (sym (ap AuthzDecision.decision (authorize_agent-some r a w p q)) ∙ e),
    )
  ]
]

Permits-authorize_agent :
    (r : AuthzRequest) → PermitsAgent r → (authorize_agent r r.agent r.warrant).decision ≡ allow
Permits-authorize_agent r (a, w, p, q, h) =
    ap AuthzDecision.decision (authorize_agent-some r a w p q) ∙ Permits-authorize_warrant r a w h

authorize_integrate_iff :
    (r : AuthzRequest) → ((authorize_integrate r).decision ≡ allow) ↔ PermitsIntegrate r
unfolding authorize_integrate
authorize_integrate_iff r = ground arith

is_integrate_iff :
    (action : WarrantAction)
    → (is_integrate action ≡ true) ↔ (action ≡ WarrantAction.merge_integrate)
is_integrate_iff action = ground arith

-- A request is allowed exactly when it integrates as the orchestrator, on the integration branch,
-- with every subtask approved, or when it does something else and an Agent holds a warrant that is
-- its own, unrevoked, unexpired, of the scope that the action needs, not on another human's
-- workspace, and with a grant that covers the resource.
pub authorize_iff : (r : AuthzRequest) → ((authorize r).decision ≡ allow) ↔ Permitted r
unfolding authorize
authorize_iff r = elim (Bool-cases (is_integrate r.action)) [
  | inl yes_i ↦
      let act = (is_integrate_iff r.action).0 yes_i in
      rw yes_i (
        λ e. inl (act, (authorize_integrate_iff r).0 e),
        λ h. elim h [ inl k ↦ (authorize_integrate_iff r).1 k.1 | inr k ↦ absurd (k.0 act) ],
      )
  | inr no_i ↦
      let act : r.action ≢ WarrantAction.merge_integrate =
        λ e. cc ((is_integrate_iff r.action).1 e) in
      rw no_i (
        λ e. inr (act, authorize_agent-Permits r e),
        λ h. elim h [ inl k ↦ absurd (act k.0) | inr k ↦ Permits-authorize_agent r k.1 ],
      )
]
