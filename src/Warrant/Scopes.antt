-- ===== src/Warrant/Scopes.antt =====
-- Membership of a scope, as the tests decide it.
use please_hire_me.Prelude.{◌≡◌, ◌↔◌, inl, inr, true, List, [], ◌∷◌, arith, In}
use please_hire_me.Warrant.Types.{WarrantScope, scope_eq, has_scope}

pub scope_eq_iff : (s t : WarrantScope) → (scope_eq s t ≡ true) ↔ (s ≡ t)
scope_eq_iff s t = ground arith

pub has_scope-In :
    (s : WarrantScope) (scopes : List WarrantScope) → has_scope s scopes ≡ true → In s scopes
unfolding has_scope
has_scope-In s [] e = cc
has_scope-In s (t ∷ ts) e = ground (arith, has_scope-In s ts, scope_eq_iff s t)

pub In-has_scope :
    (s : WarrantScope) (scopes : List WarrantScope) → In s scopes → has_scope s scopes ≡ true
unfolding has_scope
In-has_scope s [] m = elim m [ ]
In-has_scope s (t ∷ ts) (inl e) = ground (arith, scope_eq_iff s t)
In-has_scope s (t ∷ ts) (inr m) = ground (arith, In-has_scope s ts m)
