-- ===== src/Concord/Provenance/Responsible.antt =====
-- Which Agents a range of lines names.
use please_hire_me.Prelude.{
  ℕ, zero, suc, ◌+◌, ◌-◌, ◌≤◌, ◌<◌, ◌≡◌, ◌↔◌, sym, ap, subst, ◌⊎◌, inl, inr, true, Option, none,
  some, List, [], ◌∷◌, arith, ℕ_discrete, length, get_elem?, any, Bool-cases, Text, text_eq,
  text_eq_iff, In, In-append_left, In-append_right, In-append_cases,
}
use please_hire_me.Concord.Provenance.{
  LineProvenance, agent_at, add_agent, collect_agents, responsible_agents,
}

pub any-In : (a : Text) (xs : List Text) → any (text_eq a) xs ≡ true → In a xs
any-In a [] e = cc
any-In a (x ∷ xs) e = ground (arith, any-In a xs, text_eq_iff a x)

add_agent-In :
    (a : Text) (o : Option Text) (found : List Text)
    → In a (add_agent o found) ↔ (In a found ⊎ (o ≡ some a))
unfolding add_agent
add_agent-In a none found = (λ m. inl m, λ m. ground arith)
add_agent-In a (some b) found = elim (Bool-cases (any (text_eq b) found)) [
  | inl old ↦ rw old (
    λ m. inl m,
    λ m. elim m [
      | inl k ↦ k
      | inr e ↦ subst (λ t. In t found) (some-inj b a e) (any-In b found old)
    ],
  )
  | inr new ↦ rw new (
    λ m. elim (In-append_cases a found (b ∷ []) m) [
      | inl k ↦ inl k
      | inr (inl e) ↦ inr (ap {B = Option Text} some (sym e))
      | inr (inr k) ↦ elim k [ ]
    ],
    λ m. elim m [
      | inl k ↦ In-append_left a found (b ∷ []) k
      | inr e ↦ In-append_right a found (b ∷ []) (inl (sym (some-inj b a e)))
    ],
  )
]
  where
    some-inj : (x y : Text) → some x ≡ some y → x ≡ y
    some-inj x y e = cc

-- An Agent that one of `rounds` lines from `line` on names.
abbrev pub Named : List LineProvenance → ℕ → ℕ → Text → Type 0
Named lines first last a = (k : ℕ) × (first ≤ k) × (k ≤ last) × (agent_at lines k ≡ some a)

collect_agents-In :
    (lines : List LineProvenance) (rounds line : ℕ) (found : List Text) (a : Text)
    → In a (collect_agents lines rounds line found)
      ↔ (In a found ⊎ ((k : ℕ) × (line ≤ k) × (k < line + rounds) × (agent_at lines k ≡ some a)))
unfolding collect_agents
collect_agents-In lines zero line found a =
    (λ m. inl m, λ m. elim m [ inl k ↦ k | inr (k, p, q, e) ↦ absurd (omega arith) ])
collect_agents-In lines (suc rounds) line found a =
    let (to, from) =
      collect_agents-In lines rounds (suc line) (add_agent (agent_at lines line) found) a in
    let (there, back) = add_agent-In a (agent_at lines line) found in
    (
      λ m. elim (to m) [
        | inl h ↦ elim (there h) [ inl k ↦ inl k | inr e ↦ inr (line, omega arith, omega arith, e) ]
        | inr (k, p, q, e) ↦ inr (k, omega arith, omega arith, e)
      ],
      λ m. elim m [
        | inl h ↦ from (inl (back (inl h)))
        | inr (k, p, q, e) ↦ elim (ℕ_discrete line k) [
          | yes same ↦ from (inl (back (inr (rw (← same) at e))))
          | no differ ↦ from (inr (k, omega arith, omega arith, e))
        ]
      ],
    )

-- The candidates for a range are exactly the Agents that a line of it names.
pub responsible_agents-candidates :
    (lines : List LineProvenance) (first last : ℕ) (a : Text)
    → In a (responsible_agents lines first last).candidate_agent_ids ↔ Named lines first last a
unfolding responsible_agents
responsible_agents-candidates lines first last a =
    let (to, from) = collect_agents-In lines (last + 1 - first) first [] a in
    (
      λ m. elim (to m) [ inl h ↦ elim h [ ] | inr (k, p, q, e) ↦ (k, p, omega arith, e) ],
      λ m. from (inr (m.0, m.1, omega (arith, m.1, m.2), m.3)),
    )

only_one : (a b : Text) (xs : List Text) → length xs ≡ 1 → get_elem? xs 0 ≡ some a → In b xs → b ≡ a
only_one a b [] l e m = elim m [ ]
only_one a b (x ∷ []) l e (inl m) = ground arith
only_one a b (x ∷ []) l e (inr m) = elim m [ ]
only_one a b (x ∷ y ∷ xs) l e m = absurd (omega arith)

get_elem?-In : (a : Text) (xs : List Text) → get_elem? xs 0 ≡ some a → In a xs
get_elem?-In a [] e = cc
get_elem?-In a (x ∷ xs) e = inl (cc)

-- If an Agent is recommended for a range, every line of the range that names an Agent names that
-- one.
pub responsible_agents-recommended :
    (lines : List LineProvenance) (first last : ℕ) (a b : Text)
    → (responsible_agents lines first last).recommended_agent_id ≡ some a
    → Named lines first last b
    → Named lines first last a × (b ≡ a)
unfolding responsible_agents
responsible_agents-recommended lines first last a b e m =
    let found : List Text = collect_agents lines (last + 1 - first) first [] in
    let one : length found ≡ 1 = ground arith in
    let here : get_elem? found 0 ≡ some a = ground arith in
    (
      (responsible_agents-candidates lines first last a).0 (get_elem?-In a found here),
      only_one a b found one here ((responsible_agents-candidates lines first last b).1 m),
    )

pub recommended-Named :
    (lines : List LineProvenance) (first last : ℕ) (a : Text)
    → (responsible_agents lines first last).recommended_agent_id ≡ some a
    → Named lines first last a
unfolding responsible_agents
recommended-Named lines first last a e =
    let found : List Text = collect_agents lines (last + 1 - first) first [] in
    let here : get_elem? found 0 ≡ some a = ground arith in
    (responsible_agents-candidates lines first last a).0 (get_elem?-In a found here)
