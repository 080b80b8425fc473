-- ===== src/Aegis/Policy/Overrides.antt =====
-- Deny overrides, on a base that denies.
use please_hire_me.Prelude.{
  ◌≡◌, refl, sym, ap, ◌∙◌, ◌⊎◌, ◌≢◌, ◌↔◌, inl, inr, Bool, true, false, Option, none, some, List, [],
  ◌∷◌, arith, Bool-cases, Option-cases, keep_if, In, All, All-In, In-All, keep_if-In, In-keep_if,
}
use please_hire_me.Aegis.Policy.{
  Decision, allow, deny, PolicyRequest, PolicyRule, Verdict, verdict, gate_eq, matched, keep_first,
  evaluate_rules, evaluate, by_rule,
}

-- A rule that holds nothing against a request: it can be evaluated, and does not deny.
abbrev pub Passes : PolicyRequest → PolicyRule → Type 0
Passes r rule = (rule.when r ≡ some false) ⊎ ((rule.when r ≡ some true) × (rule.effect ≡ allow))

-- A rule that permits a request.
abbrev pub Grants : PolicyRequest → PolicyRule → Type 0
Grants r rule = (rule.when r ≡ some true) × (rule.effect ≡ allow)

abbrev IsPermit : Option Verdict → Type 0
IsPermit none = Unit
IsPermit (some v) = v.decision ≡ allow

Decision-cases : (d : Decision) → (d ≡ allow) ⊎ (d ≡ deny)
Decision-cases allow = inl refl
Decision-cases deny = inr refl

some_apart : some false ≢ some true
some_apart e = ground arith

allow_deny : allow ≢ deny
allow_deny e = ground arith

module _ (r : PolicyRequest) (rule : PolicyRule) (rules : List PolicyRule)
    (permit : Option Verdict) where
  evaluate_rules-fault :
      rule.when r ≡ none → (evaluate_rules r (rule ∷ rules) permit).decision ≡ deny
  unfolding evaluate_rules
  evaluate_rules-fault e = rw (e, evaluate_rules) refl

  evaluate_rules-skip :
      rule.when r ≡ some false
      → evaluate_rules r (rule ∷ rules) permit ≡ evaluate_rules r rules permit
  unfolding evaluate_rules
  evaluate_rules-skip e = rw (e, evaluate_rules) refl

  evaluate_rules-hit :
      rule.when r ≡ some true
      → evaluate_rules r (rule ∷ rules) permit
        ≡ matched r rule rule.effect permit (evaluate_rules r rules)
  unfolding evaluate_rules
  evaluate_rules-hit e = rw (e, evaluate_rules) refl

  evaluate_rules-deny :
      rule.when r ≡ some true
      → rule.effect ≡ deny
      → (evaluate_rules r (rule ∷ rules) permit).decision ≡ deny
  evaluate_rules-deny e d = rw (evaluate_rules-hit e, d) refl

  evaluate_rules-allow :
      rule.when r ≡ some true
      → rule.effect ≡ allow
      → evaluate_rules r (rule ∷ rules) permit
        ≡ evaluate_rules r rules
            (keep_first permit (verdict r allow (by_rule rule.id) rule.severity))
  evaluate_rules-allow e d = rw (evaluate_rules-hit e, d) refl

-- A rule passes over the request, permits it, or stops it.
rule-cases :
    (r : PolicyRequest) (rule : PolicyRule)
    → (rule.when r ≡ some false)
      ⊎ (Grants r rule
          ⊎ ((rule.when r ≡ none) ⊎ ((rule.when r ≡ some true) × (rule.effect ≡ deny))))
rule-cases r rule = elim (Option-cases (rule.when r)) [
  | inl none_e ↦ inr (inr (inl none_e))
  | inr (hit, e) ↦ elim (Bool-cases hit) [
    | inl t ↦ elim (Decision-cases rule.effect) [
      | inl a ↦ inr (inl (e ∙ ap some t, a))
      | inr d ↦ inr (inr (inr (e ∙ ap some t, d)))
    ]
    | inr n ↦ inl (e ∙ ap some n)
  ]
]

stopped :
    (r : PolicyRequest) (rule : PolicyRule) (rules : List PolicyRule) (permit : Option Verdict)
    → (rule.when r ≡ none) ⊎ ((rule.when r ≡ some true) × (rule.effect ≡ deny))
    → (evaluate_rules r (rule ∷ rules) permit).decision ≡ deny
stopped r rule rules permit (inl e) = evaluate_rules-fault r rule rules permit e
stopped r rule rules permit (inr (e, d)) = evaluate_rules-deny r rule rules permit e d

stopped-Passes :
    (r : PolicyRequest) (rule : PolicyRule)
    → (rule.when r ≡ none) ⊎ ((rule.when r ≡ some true) × (rule.effect ≡ deny))
    → ¬ (Passes r rule)
stopped-Passes r rule h p = ground arith

-- With a permit in hand, what is left only has to pass.
kept_iff :
    (r : PolicyRequest) (rules : List PolicyRule) (v : Verdict)
    → v.decision ≡ allow
    → ((evaluate_rules r rules (some v)).decision ≡ allow) ↔ All (Passes r) rules
unfolding evaluate_rules
kept_iff r [] v a = (λ _. tt, λ _. a)
kept_iff r (rule ∷ rules) v a = elim (rule-cases r rule) [
  | inl skip ↦
      rw (evaluate_rules-skip r rule rules (some v) skip)
        (λ e. (inl skip, (kept_iff r rules v a).0 e), λ h. (kept_iff r rules v a).1 h.1)
  | inr (inl grant) ↦
      rw (evaluate_rules-allow r rule rules (some v) grant.0 grant.1)
        (λ e. (inr grant, (kept_iff r rules v a).0 e), λ h. (kept_iff r rules v a).1 h.1)
  | inr (inr stop) ↦ (
    λ e. elim (allow_deny (sym e ∙ stopped r rule rules (some v) stop)) [ ],
    λ h. elim (stopped-Passes r rule stop h.0) [ ],
  )
]

abbrev Opens : PolicyRequest → List PolicyRule → Type 0
Opens r rules = ((rule : PolicyRule) × (In rule rules × Grants r rule)) × All (Passes r) rules

module _ {r : PolicyRequest} {rule : PolicyRule} (rules : List PolicyRule)
    (skip : rule.when r ≡ some false) where
  still_open : Opens r rules → Opens r (rule ∷ rules)
  still_open ((x, (m, g)), ps) = ((x, (inr m, g)), (inl skip, ps))

  past : Opens r (rule ∷ rules) → Opens r rules
  past ((x, (inl same, g)), (p, ps)) =
      elim (some_apart (sym skip ∙ ap (λ (u : PolicyRule). u.when r) (sym same) ∙ g.0)) [ ]
  past ((x, (inr m, g)), (p, ps)) = ((x, (m, g)), ps)

open_iff :
    (r : PolicyRequest) (rules : List PolicyRule)
    → ((evaluate_rules r rules none).decision ≡ allow) ↔ Opens r rules
unfolding evaluate_rules
open_iff r [] = (λ e. elim (allow_deny (sym e)) [ ], λ h. elim h.0.1.0 [ ])
open_iff r (rule ∷ rules) = elim (rule-cases r rule) [
  | inl skip ↦ rw (evaluate_rules-skip r rule rules none skip) (
    λ e. still_open rules skip ((open_iff r rules).0 e),
    λ h. (open_iff r rules).1 (past rules skip h),
  )
  | inr (inl grant) ↦ rw (evaluate_rules-allow r rule rules none grant.0 grant.1) (
    λ e. ((rule, (inl refl, grant)), (inr grant, (kept_iff r rules _ refl).0 e)),
    λ h. (kept_iff r rules _ refl).1 h.1.1,
  )
  | inr (inr stop) ↦ (
    λ e. elim (allow_deny (sym e ∙ stopped r rule rules none stop)) [ ],
    λ h. elim (stopped-Passes r rule stop h.1.0) [ ],
  )
]

-- The rules of the gate that the request stands at.
abbrev pub at_gate : PolicyRequest → PolicyRule → Bool
at_gate r rule = gate_eq rule.gate r.context.gate

-- What allows a request: a rule of its gate that grants it, and no rule of its gate against it.
abbrev pub IsPermitted : List PolicyRule → PolicyRequest → Type 0
IsPermitted rules r =
    ((rule : PolicyRule) × (In rule rules × ((at_gate r rule ≡ true) × Grants r rule)))
    × ((rule : PolicyRule) → In rule rules → at_gate r rule ≡ true → Passes r rule)

-- A request is allowed exactly if some rule of its gate grants it and every rule of its gate passes
-- it: none of them fails, and none that matches denies.
pub evaluate_iff :
    (rules : List PolicyRule) (r : PolicyRequest)
    → ((evaluate rules r).decision ≡ allow) ↔ IsPermitted rules r
unfolding evaluate
evaluate_iff rules r = (
  λ e.
      let open_e = (open_iff r (keep_if (at_gate r) rules)).0 e in
      let here = keep_if-In (at_gate r) rules open_e.0.0 open_e.0.1.0 in
      (
        (open_e.0.0, (here.0, (here.1, open_e.0.1.1))),
        λ x m a.
            All-In (Passes r) (keep_if (at_gate r) rules) x open_e.1
              (In-keep_if (at_gate r) rules x m a),
      ),
  λ h. (open_iff r (keep_if (at_gate r) rules)).1 (
    (h.0.0, (In-keep_if (at_gate r) rules h.0.0 h.0.1.0 h.0.1.1.0, h.0.1.1.1)),
    In-All (Passes r) (keep_if (at_gate r) rules)
        λ x m. let k = keep_if-In (at_gate r) rules x m in h.1 x k.0 k.1,
  ),
)

-- Whatever the order of the two bundles: if `more` holds every rule of `rules`, and otherwise only
-- rules that deny, every request that `more` allows is allowed by `rules`.
pub evaluate-tightened :
    (rules more : List PolicyRule) (r : PolicyRequest)
    → ((rule : PolicyRule) → In rule rules → In rule more)
    → ((rule : PolicyRule) → In rule more → (rule.effect ≡ deny) ⊎ In rule rules)
    → (evaluate more r).decision ≡ allow
    → (evaluate rules r).decision ≡ allow
evaluate-tightened rules more r kept added e =
    let h = (evaluate_iff more r).0 e in
    let granted : In h.0.0 rules = elim (added h.0.0 h.0.1.0) [
      | inl d ↦ elim (allow_deny (sym h.0.1.1.1.1 ∙ d)) [ ]
      | inr m ↦ m
    ] in
    (evaluate_iff rules r).1 ((h.0.0, (granted, h.0.1.1)), λ x m a. h.1 x (kept x m) a)
