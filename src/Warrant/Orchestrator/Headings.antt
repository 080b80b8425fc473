-- ===== src/Warrant/Orchestrator/Headings.antt =====
-- The headings that a plan hands out: the loop finds a free one, and no two subtasks share one.
use please_hire_me.Prelude.{
  ℕ, zero, suc, ◌+◌, ◌*◌, ◌≤◌, ◌≡◌, refl, sym, ap, subst, ◌∙◌, ◌≢◌, inl, inr, false, none, some,
  List, [], ◌∷◌, ◌++◌, arith, length, length-append, any, Bool-cases, Option-cases, if◌then◌else◌,
  Text, codes, text_eq, text_eq_iff, decimal, number_of, number_of-decimal, In,
}
use mathlib.Core.List.{append_cancel_left}
use please_hire_me.Concord.Provenance.Responsible.{any-In}
use please_hire_me.Warrant.Orchestrator.{heading_of, numbered_heading, free_heading, next_section}

-- One occurrence less.
remove_one : Text → List Text → List Text
remove_one a [] = []
remove_one a (x ∷ xs) = if text_eq x a then xs else x ∷ remove_one a xs

length-remove_one :
    (a : Text) (xs : List Text) → In a xs → length xs ≡ suc (length (remove_one a xs))
unfolding remove_one
length-remove_one a [] m = elim m [ ]
length-remove_one a (x ∷ xs) m = elim (Bool-cases (text_eq x a)) [
  | inl same ↦ rw (same, remove_one) (omega arith)
  | inr other ↦
      rw (other, remove_one)
        (ap suc (
          length-remove_one a xs
            (elim m [ inl e ↦ cc (sym other ∙ (text_eq_iff x a).1 (sym e)) | inr k ↦ k ])))
]

In-remove_one : (a b : Text) (xs : List Text) → a ≢ b → In b xs → In b (remove_one a xs)
unfolding remove_one
In-remove_one a b [] d m = elim m [ ]
In-remove_one a b (x ∷ xs) d m = elim (Bool-cases (text_eq x a)) [
  | inl same ↦
      rw (same, remove_one)
        (elim m [ inl e ↦ absurd (d (sym ((text_eq_iff x a).0 same) ∙ sym e)) | inr k ↦ k ])
  | inr other ↦
      rw (other, remove_one) (elim m [ inl e ↦ inl e | inr k ↦ inr (In-remove_one a b xs d k) ])
]

-- No text stands twice.
abbrev pub IsNodup : List Text → Type 0
IsNodup [] = Unit
IsNodup (x ∷ xs) = (¬ In x xs) × IsNodup xs

-- Different texts that all stand in a list are no more than its length.
pigeonhole :
    (xs ys : List Text) → IsNodup xs → ((a : Text) → In a xs → In a ys) → length xs ≤ length ys
pigeonhole [] ys d f = omega arith
pigeonhole (x ∷ xs) ys (new, d) f =
    let ih =
      pigeonhole xs (remove_one x ys) d
        λ a m. In-remove_one x a ys (λ e. new (subst (λ t. In t xs) (sym e) m)) (f a (inr m)) in
    omega (arith, ih, length-remove_one x ys (f x (inl refl)))

number_of-closed : (s : Text) (n : ℕ) → number_of (s ++ codes ")") n ≡ number_of s n * 10
number_of-closed [] n = omega arith
number_of-closed (c ∷ s) n = number_of-closed s _

numbered_heading_inj :
    (title : Text) (j k : ℕ) → numbered_heading title j ≡ numbered_heading title k → j ≡ k
numbered_heading_inj title j k e =
    let tail = append_cancel_left title _ _ (append_cancel_left (codes "## ") _ _ e) in
    let shut =
      append_cancel_left (codes " (") (decimal j ++ codes ")") (decimal k ++ codes ")") tail in
    let tens : number_of (decimal j) 0 * 10 ≡ number_of (decimal k) 0 * 10 =
      sym (number_of-closed (decimal j) 0)
      ∙ ap (λ s. number_of s 0) shut
      ∙ number_of-closed (decimal k) 0 in
    omega (arith, number_of-decimal j, number_of-decimal k)

heading-ne-numbered : (title : Text) (k : ℕ) → heading_of title ≢ numbered_heading title k
heading-ne-numbered title k e =
    let rest = codes " (" ++ (decimal k ++ codes ")") in
    let same : title ≡ title ++ rest = append_cancel_left (codes "## ") _ _ e in
    let count : length title ≡ length (title ++ rest) = ap (length {A = ℕ}) same in
    omega (arith, length-append title rest)

-- The headings that the loop tries in its rounds.
candidates : ℕ → Text → Text → ℕ → List Text
candidates zero title heading suffix = []
candidates (suc fuel) title heading suffix =
    heading ∷ candidates fuel title (numbered_heading title suffix) (suffix + 1)

length-candidates : (fuel : ℕ) (title h : Text) (k : ℕ) → length (candidates fuel title h k) ≡ fuel
unfolding candidates
length-candidates zero title h k = refl
length-candidates (suc fuel) title h k = ap suc (length-candidates fuel title _ _)

In-candidates :
    (fuel : ℕ) (title : Text) (k : ℕ) (a : Text)
    → In a (candidates fuel title (numbered_heading title k) (k + 1))
    → (j : ℕ) × (k ≤ j) × (a ≡ numbered_heading title j)
unfolding candidates
In-candidates zero title k a m = elim m [ ]
In-candidates (suc fuel) title k a (inl e) = (k, omega arith, e)
In-candidates (suc fuel) title k a (inr m) =
    let (j, le, e) = In-candidates fuel title (k + 1) a m in (j, omega arith, e)

candidates-IsNodup :
    (fuel : ℕ) (title : Text) (k : ℕ)
    → IsNodup (candidates fuel title (numbered_heading title k) (k + 1))
unfolding candidates
candidates-IsNodup zero title k = _
candidates-IsNodup (suc fuel) title k = (
  λ m.
      let (j, le, e) = In-candidates fuel title (k + 1) _ m in
      let same = numbered_heading_inj title k j e in omega arith,
  candidates-IsNodup fuel title (k + 1),
)

tries-IsNodup :
    (fuel : ℕ) (title : Text) (k : ℕ) → IsNodup (candidates fuel title (heading_of title) k)
unfolding candidates
tries-IsNodup zero title k = _
tries-IsNodup (suc fuel) title k = (
  λ m. let (j, le, e) = In-candidates fuel title k _ m in heading-ne-numbered title j e,
  candidates-IsNodup fuel title k,
)

-- A loop that runs out of fuel has found every heading that it tried in the set.
free_heading-none :
    (fuel : ℕ) (taken : List Text) (title h : Text) (k : ℕ)
    → free_heading fuel taken title h k ≡ none
    → (a : Text) → In a (candidates fuel title h k)
    → In a taken
unfolding free_heading candidates
free_heading-none zero taken title h k e a m = elim m [ ]
free_heading-none (suc fuel) taken title h k e a m = elim (Bool-cases (any (text_eq h) taken)) [
  | inl old ↦ elim m [
    | inl same ↦ subst (λ t. In t taken) (sym same) (any-In h taken old)
    | inr m' ↦ free_heading-none fuel taken title _ _ (rw old at e) a m'
  ]
  | inr new ↦ cc (rw new at e)
]

free_heading-new :
    (fuel : ℕ) (taken : List Text) (title h : Text) (k : ℕ) (a : Text)
    → free_heading fuel taken title h k ≡ some a
    → any (text_eq a) taken ≡ false
unfolding free_heading
free_heading-new zero taken title h k a e = cc
free_heading-new (suc fuel) taken title h k a e = elim (Bool-cases (any (text_eq h) taken)) [
  | inl old ↦ free_heading-new fuel taken title _ _ a (rw old at e)
  | inr new ↦
      let same : h ≡ a = cc (rw new at e) in subst (λ t. any (text_eq t) taken ≡ false) same new
]

-- The loop over the headings ends for every set of headings and every title, with a heading that is
-- not in the set.
pub next_section-total :
    (taken : List Text) (title : Text)
    → (heading : Text) × (next_section taken title ≡ some heading)
      × (any (text_eq heading) taken ≡ false)
unfolding next_section
next_section-total taken title = elim (Option-cases (next_section taken title)) [
  | inl stuck ↦
      let tried = candidates (suc (length taken)) title (heading_of title) 2 in
      let few =
        pigeonhole tried taken (tries-IsNodup (suc (length taken)) title 2)
          (free_heading-none (suc (length taken)) taken title (heading_of title) 2 stuck) in
      absurd (omega (arith, few, length-candidates (suc (length taken)) title (heading_of title) 2))
  | inr (h, e) ↦ (h, e, free_heading-new (suc (length taken)) taken title (heading_of title) 2 h e)
]
