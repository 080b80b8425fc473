-- ===== src/Review/Runs/Grouping.antt =====
-- The groups that `planRuns` builds: one for each document and Agent.
use please_hire_me.Prelude.{
  ℕ, ◌<◌, ◌≡◌, refl, sym, ap, subst, ◌∙◌, inl, inr, Option, none, some, [], ◌∷◌, ◌++◌, arith,
  length, length-append, Bool-cases, Text, codes, text_eq, text_eq_iff, Assoc, lookup,
  lookup-insert, lookup-insert_self, Entries, insert-Entries, lookup-Entries, Distinct,
  insert-Distinct, In, In-append_left, In-append_right, All, All-append,
}
use please_hire_me.Review.Types.{ReviewComment}
use please_hire_me.Review.Runs.{PlannedRun, run_key, grown, add_to_group}

abbrev colon : ℕ
colon = b':'

-- An identifier without a colon: from the key the document and the Agent can be read back.
abbrev pub HasNoColon : Text → Type 0
HasNoColon a = ¬ In b':' a

colon_In : (e b : Text) → In b':' (e ++ codes "::" ++ b)
colon_In [] b = inl refl
colon_In (c ∷ e) b = inr (colon_In e b)

run_key_inj :
    (d e a b : Text)
    → HasNoColon a
    → HasNoColon b
    → d ++ codes "::" ++ a ≡ e ++ codes "::" ++ b
    → (d ≡ e) × (a ≡ b)
run_key_inj [] [] a b p q h = (refl, cc)
run_key_inj [] (c ∷ []) a b p q h =
    let e : a ≡ b':' ∷ b = cc in absurd (p (subst (λ t. In b':' t) (sym e) (inl refl)))
run_key_inj [] (c ∷ c' ∷ d) a b p q h =
    let e : a ≡ d ++ codes "::" ++ b = cc in
    absurd (p (subst (λ t. In b':' t) (sym e) (colon_In d b)))
run_key_inj (c ∷ []) [] a b p q h =
    let e : b ≡ b':' ∷ a = cc in absurd (q (subst (λ t. In b':' t) (sym e) (inl refl)))
run_key_inj (c ∷ c' ∷ d) [] a b p q h =
    let e : b ≡ d ++ codes "::" ++ a = cc in
    absurd (q (subst (λ t. In b':' t) (sym e) (colon_In d a)))
run_key_inj (c ∷ d) (c' ∷ e) a b p q h =
    let (same, rest) = run_key_inj d e a b p q (cc) in (cc, rest)

module _ (P : ReviewComment → Type 0) where
  abbrev pub Member : PlannedRun → ReviewComment → Type 0
  Member g c = P c × (c.doc_id ≡ g.doc_id) × (c.responsible_agent_id ≡ g.agent_id)

  -- A group stands under its key and holds comments of its document and Agent, at least one.
  pub record IsGroup (k : Text) (g : PlannedRun) : Type 0 where
    pub keyed : k ≡ g.doc_id ++ codes "::" ++ g.agent_id
    pub clean : HasNoColon g.agent_id
    pub nonempty : 0 < length g.comments
    pub members : All (Member g) g.comments

  grown-IsGroup :
      (c : ReviewComment) (groups : Assoc PlannedRun) (o : Option PlannedRun)
      → P c
      → HasNoColon c.responsible_agent_id
      → Entries IsGroup groups
      → lookup (run_key c) groups ≡ o
      → IsGroup (run_key c) (grown c o)
  grown-IsGroup c groups none p clean h e = record {
    keyed = refl;
    clean = clean;
    nonempty = omega arith;
    members = ((p, refl, refl), _);
  }
  grown-IsGroup c groups (some g) p clean h e =
      let is = lookup-Entries IsGroup (run_key c) g groups h e in
      let (doc, agent) = run_key_inj _ _ _ _ clean is.clean is.keyed in
      record {
        keyed = is.keyed;
        clean = is.clean;
        nonempty = omega (arith, length-append g.comments (c ∷ []));
        members = All-append (Member g) g.comments (c ∷ []) is.members ((p, doc, agent), _);
      }

  pub add_to_group-Entries :
      (c : ReviewComment) (groups : Assoc PlannedRun)
      → P c
      → HasNoColon c.responsible_agent_id
      → Entries IsGroup groups
      → Entries IsGroup (add_to_group c groups)
  unfolding add_to_group
  add_to_group-Entries c groups p clean h =
      insert-Entries IsGroup (run_key c) (grown c (lookup (run_key c) groups)) groups
        (grown-IsGroup c groups (lookup (run_key c) groups) p clean h refl) h

pub add_to_group-Distinct :
    (c : ReviewComment) (groups : Assoc PlannedRun)
    → Distinct groups
    → Distinct (add_to_group c groups)
unfolding add_to_group
add_to_group-Distinct c groups d = insert-Distinct _ _ groups d

-- The comment stands in the group of its document and Agent.
abbrev pub IsPlanned : Assoc PlannedRun → ReviewComment → Type 0
IsPlanned groups c = (g : PlannedRun) × (lookup (run_key c) groups ≡ some g) × In c g.comments

grown-In : (c : ReviewComment) (o : Option PlannedRun) → In c (grown c o).comments
grown-In c none = inl refl
grown-In c (some g) = In-append_right c g.comments (c ∷ []) (inl refl)

pub add_to_group-IsPlanned :
    (c : ReviewComment) (groups : Assoc PlannedRun) → IsPlanned (add_to_group c groups) c
unfolding add_to_group
add_to_group-IsPlanned c groups = (
  grown c (lookup (run_key c) groups),
  lookup-insert_self (run_key c) _ groups,
  grown-In c (lookup (run_key c) groups),
)

-- What was planned before stays planned.
pub add_to_group-keeps :
    (c d : ReviewComment) (groups : Assoc PlannedRun)
    → IsPlanned groups d
    → IsPlanned (add_to_group c groups) d
unfolding add_to_group
add_to_group-keeps c d groups (g, e, m) = elim (Bool-cases (text_eq (run_key c) (run_key d))) [
  | inl same ↦
      let here : lookup (run_key c) groups ≡ some g =
        ap (λ k. lookup k groups) ((text_eq_iff (run_key c) (run_key d)).0 same) ∙ e in
      (
        grown c (some g),
        lookup-insert (run_key c) (run_key d) _ groups
            ∙ rw same (ap (λ (o : Option PlannedRun). some (grown c o)) here),
        In-append_left d g.comments (c ∷ []) m,
      )
  | inr other ↦ (g, lookup-insert (run_key c) (run_key d) _ groups ∙ rw other e, m)
]
