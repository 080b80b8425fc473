-- ===== src/Warrant/Policy/Attenuation.antt =====
-- A narrower warrant allows no more than a wider one.
use please_hire_me.Prelude.{
  ◌≤◌, ◌<◌, ◌≡◌, refl, sym, ◌∙◌, inl, inr, true, none, some, arith, In, Text,
}
use please_hire_me.Warrant.Types.{WarrantAgentPrincipal, Warrant, WarrantScope}
use please_hire_me.Warrant.Resources.{covers}
use please_hire_me.Warrant.Resources.Covering.{covers_trans}
use please_hire_me.Warrant.Policy.{AuthzRequest, allow, authorize}
use please_hire_me.Warrant.Policy.Decides.{Permits, authorize_iff}

-- `v` delegates no more than `w`: the same Agent, no other scope, no later end, and each resource
-- within one of `w`.
pub record Narrower (v w : Warrant) : Type 0 where
  pub agent : v.agent_id ≡ w.agent_id
  pub live : v.revoked_at ≡ none → w.revoked_at ≡ none
  pub sooner : v.expires_at ≤ w.expires_at
  pub scopes : (s : WarrantScope) → In s v.scopes → In s w.scopes
  pub resources :
      (g : Text) → In g v.resources → (h : Text) × In h w.resources × (covers h g ≡ true)

abbrev pub with_warrant : AuthzRequest → Warrant → AuthzRequest
with_warrant r w = record r { warrant = some w }

Narrower-Permits :
    (r : AuthzRequest) (a : WarrantAgentPrincipal) (v w : Warrant)
    → Narrower v w
    → Permits (with_warrant r v) a v
    → Permits (with_warrant r w) a w
Narrower-Permits r a v w n p =
    let (g, m, c) = p.granted in
    let (h, k, d) = n.resources g m in
    record {
      holder = sym n.agent ∙ p.holder;
      unrevoked = n.live p.unrevoked;
      unexpired =
          let a : v.expires_at ≤ w.expires_at = n.sooner in
          let b : r.facts.now < v.expires_at = p.unexpired in omega arith;
      scoped = λ s e. n.scopes s (p.scoped s e);
      own = p.own;
      granted = (h, k, covers_trans h g r.resource d c);
    }

-- Attenuation: whatever is allowed under a narrower warrant is allowed under the wider one.
pub authorize_attenuates :
    (r : AuthzRequest) (v w : Warrant)
    → Narrower v w
    → (authorize (with_warrant r v)).decision ≡ allow
    → (authorize (with_warrant r w)).decision ≡ allow
authorize_attenuates r v w n e =
    (authorize_iff (with_warrant r w)).1 (elim ((authorize_iff (with_warrant r v)).0 e) [
      | inl k ↦ inl k
      | inr (act, (a, x, p, q, h)) ↦
          let same : v ≡ x = cc in
          inr (act, (a, w, p, refl, Narrower-Permits r a v w n (rw (← same) at h)))
    ])
