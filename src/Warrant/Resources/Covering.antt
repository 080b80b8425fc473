-- ===== src/Warrant/Resources/Covering.antt =====
-- What a granted resource covers.
use please_hire_me.Prelude.{
  ◌≡◌, ◌≢◌, ◌↔◌, ◌⊎◌, refl, sym, ap, ◌∙◌, inl, inr, true, [], ◌∷◌, ◌++◌, arith, append_assoc,
  append-nil, drop, Bool-cases, length, Text, text_eq, text_eq_iff, starts_with, starts_with_iff,
  ends_with, codes, ℕ, ==_iff,
}
use please_hire_me.Warrant.Resources.{repo_prefix, slash, beneath, covers_path, covers}

-- The paths beneath `g`, as the code goes about it.
abbrev Beneath : Text → Text → Type 0
Beneath g r = (g ≡ []) ⊎ ((r ≡ g) ⊎ ((t : Text) × (r ≡ beneath g ++ t)))

-- `beneath g` continues `g`, and is not empty.
beneath-append : (g : Text) → (s : Text) × (beneath g ≡ g ++ s)
beneath-append g = elim (Bool-cases (ends_with slash g)) [
  | inl e ↦ ([], rw e (sym (append-nil g)))
  | inr e ↦ (slash ∷ [], rw e)
]

beneath-ne-nil : (g : Text) → beneath g ≢ []
unfolding ends_with
beneath-ne-nil [] = λ e. cc
beneath-ne-nil (c ∷ g) = ground arith

covers_path_to : (g r : Text) → covers_path g r ≡ true → Beneath g r
unfolding covers_path
covers_path_to g r e = elim (Bool-cases (starts_with (beneath g) r)) [
  | inl h ↦ inr (inr ((starts_with_iff (beneath g) r).0 h))
  | inr h ↦ ground (arith, text_eq_iff g [], text_eq_iff r g)
]

covers_path_from : (g r : Text) → Beneath g r → covers_path g r ≡ true
unfolding covers_path
covers_path_from g r (inl e) = ground (arith, text_eq_iff g [])
covers_path_from g r (inr (inl e)) = ground (arith, text_eq_iff r g)
covers_path_from g r (inr (inr h)) = ground (arith, (starts_with_iff (beneath g) r).1 h)

append-ne-nil : (x y : Text) → x ≢ [] → [] ≢ x ++ y
append-ne-nil [] y h = λ _. h refl
append-ne-nil (c ∷ x) y h = λ e. cc

Beneath-nil : (g : Text) → Beneath g [] → g ≡ []
Beneath-nil g (inl e) = e
Beneath-nil g (inr (inl e)) = sym e
Beneath-nil g (inr (inr (t, e))) = absurd (append-ne-nil (beneath g) t (beneath-ne-nil g) e)

Beneath-trans : (a b c : Text) → Beneath a b → Beneath b c → Beneath a c
Beneath-trans a b c h (inl e) = inl (Beneath-nil a (rw e at h))
Beneath-trans a b c h (inr (inl e)) = rw e h
Beneath-trans a b c (inl e) (inr (inr k)) = inl e
Beneath-trans a b c (inr (inl e)) (inr (inr k)) = inr (inr (rw e at k))
Beneath-trans a b c (inr (inr (t, e))) (inr (inr (u, f))) =
    let (s, more) = beneath-append b in
    inr (
      inr (
        t ++ (s ++ u),
        f
            ∙ ap (λ x. x ++ u) (more ∙ ap (λ x. x ++ s) e)
            ∙ ap (λ x. x ++ u) (append_assoc (beneath a) t s)
            ∙ append_assoc (beneath a) (t ++ s) u
            ∙ ap (◌++◌ (beneath a)) (append_assoc t s u),
      ))

drop-prefix : (p t : Text) → drop (length p) (p ++ t) ≡ t
drop-prefix [] t = refl
drop-prefix (c ∷ p) t = drop-prefix p t

abbrev Granted : Text → Text → Type 0
Granted granted resource =
    (granted ≡ resource)
    ⊎ ((g : Text) × (r : Text) × (granted ≡ repo_prefix ++ g)
        × (resource ≡ repo_prefix ++ r)
        × Beneath g r)

covers_to : (granted resource : Text) → covers granted resource ≡ true → Granted granted resource
unfolding covers
covers_to granted resource e = elim (Bool-cases (text_eq granted resource)) [
  | inl same ↦ inl ((text_eq_iff granted resource).0 same)
  | inr differ ↦
      let (g, p) = (starts_with_iff repo_prefix granted).0 (ground arith) in
      let (r, q) = (starts_with_iff repo_prefix resource).0 (ground arith) in
      let both : covers_path (drop (length repo_prefix) granted)
            (drop (length repo_prefix) resource)
          ≡ true =
        ground arith in
      let here : covers_path g r ≡ true = rw (p, q) at both in
      inr (g, r, p, q, covers_path_to g r here)
]

covers_repo : (g r : Text) → Beneath g r → covers (repo_prefix ++ g) (repo_prefix ++ r) ≡ true
unfolding covers starts_with
covers_repo g r h =
    ground (arith, covers_path_from g r h, text_eq_iff (repo_prefix ++ g) (repo_prefix ++ r))

covers-Granted :
    (granted resource : Text) → (covers granted resource ≡ true) ↔ Granted granted resource
unfolding covers
covers-Granted granted resource = (
  covers_to granted resource,
  λ h. elim h [
    | inl e ↦ ground (arith, text_eq_iff granted resource)
    | inr (g, r, p, q, b) ↦ rw (p, q) (covers_repo g r b)
  ],
)

append-cancel : (p x y : Text) → p ++ x ≡ p ++ y → x ≡ y
append-cancel [] x y e = e
append-cancel (c ∷ p) x y e = append-cancel p x y (cc)

Granted-trans : (a b c : Text) → Granted a b → Granted b c → Granted a c
Granted-trans a b c (inl e) k = rw e k
Granted-trans a b c (inr h) (inl e) = inr (rw e at h)
Granted-trans a b c (inr (g, r, p, q, h)) (inr (g', r', p', q', h')) =
    let same : r ≡ g' = append-cancel repo_prefix r g' (sym q ∙ p') in
    inr (g, r', p, q', Beneath-trans g g' r' (rw same at h) h')

-- What a covered resource covers is covered: a grant narrowed twice is still within the first.
pub covers_trans : (a b c : Text) → covers a b ≡ true → covers b c ≡ true → covers a c ≡ true
covers_trans a b c h k =
    (covers-Granted a c).1
      (Granted-trans a b c ((covers-Granted a b).0 h) ((covers-Granted b c).0 k))

-- The path continues `g` at a slash, which is the last code unit of `g` or the next one.
abbrev pub AtSlash : Text → Text → Type 0
AtSlash g r =
    (t : Text) × (r ≡ g ++ t)
    × (((h : Text) × (g ≡ h ++ b'/' ∷ [])) ⊎ ((u : Text) × (t ≡ b'/' ∷ u)))

-- The meaning of a grant: the resource itself; for an empty repository path every repository path; and
-- for any other one what continues it at a slash.
abbrev pub Covered : Text → Text → Type 0
Covered granted resource =
    (granted ≡ resource)
    ⊎ ((g : Text) × (r : Text) × (granted ≡ codes "repo:" ++ g)
        × (resource ≡ codes "repo:" ++ r)
        × ((g ≡ []) ⊎ AtSlash g r))

ends_with-parts : (c : ℕ) (g : Text) → ends_with c g ≡ true → (h : Text) × (g ≡ h ++ c ∷ [])
unfolding ends_with
ends_with-parts c [] e = cc
ends_with-parts c (d ∷ []) e = ([], ground (arith, ==_iff d c))
ends_with-parts c (d ∷ k ∷ g) e = let (h, p) = ends_with-parts c (k ∷ g) e in (d ∷ h, ap (◌∷◌ d) p)

ends_with_last : (c : ℕ) (h : Text) → ends_with c (h ++ c ∷ []) ≡ true
unfolding ends_with
ends_with_last c [] = (==_iff c c).1 refl
ends_with_last c (d ∷ []) = (==_iff c c).1 refl
ends_with_last c (d ∷ k ∷ h) = ends_with_last c (k ∷ h)

AtSlash-beneath : (g r : Text) → AtSlash g r ↔ ((t : Text) × (r ≡ beneath g ++ t))
AtSlash-beneath g r = elim (Bool-cases (ends_with slash g)) [
  | inl e ↦ (
    λ h. (h.0, rw e h.1),
    λ (h : (t : Text) × (r ≡ beneath g ++ t)). (h.0, rw e at h.1, inl (ends_with-parts slash g e)),
  )
  | inr e ↦ (
    λ h. elim h.2 [
      | inl last ↦ let t = ends_with_last slash last.0 in absurd (ground (arith, rw last.1 at e))
      | inr next ↦
          (next.0, rw e (h.1 ∙ ap (◌++◌ g) next.1 ∙ sym (append_assoc g (slash ∷ []) next.0)))
    ],
    λ (h : (t : Text) × (r ≡ beneath g ++ t)).
        let p : r ≡ (g ++ slash ∷ []) ++ h.0 = rw e at h.1 in
        (slash ∷ h.0, p ∙ append_assoc g (slash ∷ []) h.0, inr (h.0, refl)),
  )
]

Covered-Granted : (granted resource : Text) → Covered granted resource ↔ Granted granted resource
Covered-Granted granted resource = (
  λ h. elim h [
    | inl e ↦ inl e
    | inr (g, r, p, q, inl e) ↦ inr (g, r, p, q, inl e)
    | inr (g, r, p, q, inr b) ↦ inr (g, r, p, q, inr (inr ((AtSlash-beneath g r).0 b)))
  ],
  λ h. elim h [
    | inl e ↦ inl e
    | inr (g, r, p, q, inl e) ↦ inr (g, r, p, q, inl e)
    | inr (g, r, p, q, inr (inl e)) ↦ inl (p ∙ ap (◌++◌ repo_prefix) (sym e) ∙ sym q)
    | inr (g, r, p, q, inr (inr b)) ↦ inr (g, r, p, q, inr ((AtSlash-beneath g r).1 b))
  ],
)

-- A granted resource covers exactly itself and, where both are repository paths, every path if the
-- granted one is empty, and else what continues it at a slash: the granted path ends in one, or the
-- rest of the other path begins with one.
pub covers_iff :
    (granted resource : Text) → (covers granted resource ≡ true) ↔ Covered granted resource
covers_iff granted resource = (
  λ e. (Covered-Granted granted resource).1 ((covers-Granted granted resource).0 e),
  λ h. (covers-Granted granted resource).1 ((Covered-Granted granted resource).0 h),
)
