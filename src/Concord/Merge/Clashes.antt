-- ===== src/Concord/Merge/Clashes.antt =====
-- What `merge3` reports when it refuses: each pair of hunks that change a line in common.
use please_hire_me.Prelude.{
  ℕ, ◌+◌, ◌≤◌, ◌<◌, ◌≡◌, ◌≢◌, ◌↔◌, refl, sym, subst, inl, inr, ◌⊎◌, true, List, [], ◌∷◌, arith, min,
  max, Bool-cases, Text, In, In-append_left, In-append_right, In-append_cases,
}
use please_hire_me.Concord.Merge.{
  Line, Hunk, MergeConflict, conflicted, overlaps, conflict_of, conflicts_with, conflicts_of,
  merge_hunks, merge3, split_lines, diff_lines,
}

-- The hunk deletes the line of the base, counted from 0, or inserts before it.
abbrev pub Touches : Hunk → ℕ → Type 0
Touches h x = ((h.start ≤ x) × (x < h.start + h.deleted)) ⊎ ((h.deleted ≡ 0) × (x ≡ h.start))

-- Some line of the base is touched by both hunks; the report goes from the smaller start to the larger
-- end, with what each side inserts.
pub record Clash (mine yours : Hunk) (c : MergeConflict) : Type 0 where
  pub line : ℕ
  pub touched : Touches mine line × Touches yours line
  pub starts :
      ((c.base_start ≡ mine.start) × (mine.start ≤ yours.start))
      ⊎ ((c.base_start ≡ yours.start) × (yours.start ≤ mine.start))
  pub ends :
      ((c.base_end ≡ mine.start + mine.deleted)
        × (yours.start + yours.deleted ≤ mine.start + mine.deleted))
      ⊎ ((c.base_end ≡ yours.start + yours.deleted)
          × (mine.start + mine.deleted ≤ yours.start + yours.deleted))
  pub insertions : (c.ours ≡ mine.inserted) × (c.theirs ≡ yours.inserted)

-- A report of a hunk of ours and one of theirs.
abbrev pub IsClash : List Hunk → List Hunk → MergeConflict → Type 0
IsClash ours theirs c = (a : Hunk) × (b : Hunk) × In a ours × In b theirs × Clash a b c

module _ (a b : Hunk) where
  overlaps-Touches :
      overlaps a b ≡ true → Touches a (max a.start b.start) × Touches b (max a.start b.start)
  unfolding overlaps
  overlaps-Touches e = (ground arith, ground arith)

  Touches-overlaps : (x : ℕ) → Touches a x → Touches b x → overlaps a b ≡ true
  unfolding overlaps
  Touches-overlaps x p q = ground arith

  Clash-conflict_of : overlaps a b ≡ true → Clash a b (conflict_of a b)
  Clash-conflict_of e = record {
    line = max a.start b.start;
    touched = overlaps-Touches e;
    starts = ground arith;
    ends = ground arith;
    insertions = (refl, refl);
  }

  Clash-unique : (c : MergeConflict) → Clash a b c → c ≡ conflict_of a b
  Clash-unique c h =
      let s : c.base_start ≡ min a.start b.start = ground (arith, h.starts) in
      let e : c.base_end ≡ max (a.start + a.deleted) (b.start + b.deleted) =
        ground (arith, h.ends) in
      let o = h.insertions.0 in let t = h.insertions.1 in cc

conflicts_with_iff :
    (h : Hunk) (theirs : List Hunk) (c : MergeConflict)
    → In c (conflicts_with h theirs) ↔ ((b : Hunk) × In b theirs × Clash h b c)
unfolding conflicts_with
conflicts_with_iff h [] c = (λ m. elim m [ ], λ m. m.1)
conflicts_with_iff h (k ∷ ks) c = elim (Bool-cases (overlaps h k)) [
  | inl hit ↦ rw hit (
    λ m. elim m [
      | inl e ↦ (k, inl refl, subst (λ d. Clash h k d) (sym e) (Clash-conflict_of h k hit))
      | inr later ↦ let (b, i, w) = (conflicts_with_iff h ks c).0 later in (b, inr i, w)
    ],
    λ m. elim m.1 [
      | inl e ↦ inl (Clash-unique h k c (subst (λ b. Clash h b c) e m.2))
      | inr i ↦ inr ((conflicts_with_iff h ks c).1 (m.0, i, m.2))
    ],
  )
  | inr miss ↦ rw miss (
    λ m. let (b, i, w) = (conflicts_with_iff h ks c).0 m in (b, inr i, w),
    λ m. elim m.1 [
      | inl e ↦
          let w : Clash h k c = subst (λ b. Clash h b c) e m.2 in
          let hit = Touches-overlaps h k w.line w.touched.0 w.touched.1 in absurd (ground arith)
      | inr i ↦ (conflicts_with_iff h ks c).1 (m.0, i, m.2)
    ],
  )
]

conflicts_of_iff :
    (ours theirs : List Hunk) (c : MergeConflict)
    → In c (conflicts_of ours theirs) ↔ IsClash ours theirs c
unfolding conflicts_of
conflicts_of_iff [] theirs c = (λ m. elim m [ ], λ m. m.2)
conflicts_of_iff (h ∷ ours) theirs c = (
  λ m. elim (In-append_cases c (conflicts_with h theirs) (conflicts_of ours theirs) m) [
    | inl here ↦ let (b, i, w) = (conflicts_with_iff h theirs c).0 here in (h, b, inl refl, i, w)
    | inr there ↦
        let (a, b, i, k, w) = (conflicts_of_iff ours theirs c).0 there in (a, b, inr i, k, w)
  ],
  λ (a, b, i, k, w). elim i [
    | inl e ↦
        In-append_left c (conflicts_with h theirs) (conflicts_of ours theirs)
          ((conflicts_with_iff h theirs c).1 (b, k, subst (λ x. Clash x b c) e w))
    | inr j ↦
        In-append_right c (conflicts_with h theirs) (conflicts_of ours theirs)
          ((conflicts_of_iff ours theirs c).1 (a, b, j, k, w))
  ],
)

merge_hunks-conflicted :
    (base : List Line) (ours theirs : List Hunk) (cs : List MergeConflict)
    → merge_hunks base ours theirs ≡ conflicted cs
    → (conflicts_of ours theirs ≡ cs) × (cs ≢ [])
unfolding merge_hunks
merge_hunks-conflicted base ours theirs cs e = ground arith

-- If `merge3` refuses, it reports at least one conflict, and exactly the clashes of a hunk of our diff
-- with a hunk of theirs: both delete a line of the base in common, or one inserts before a line that
-- the other deletes, or both insert at the same place. Hunks that are only next to each other are none.
pub merge3-conflicted :
    (base ours theirs : Text) (cs : List MergeConflict)
    → merge3 base ours theirs ≡ conflicted cs
    → (cs ≢ [])
      × ((c : MergeConflict)
          → In c cs
            ↔ IsClash
                (diff_lines (split_lines base) (split_lines ours))
                (diff_lines (split_lines base) (split_lines theirs))
                c)
unfolding merge3
merge3-conflicted base ours theirs cs e =
    let us : List Hunk = diff_lines (split_lines base) (split_lines ours) in
    let them : List Hunk = diff_lines (split_lines base) (split_lines theirs) in
    let (same, some_conflict) =
      merge_hunks-conflicted (split_lines base) us them cs (ground arith) in
    (
      some_conflict,
      λ c. subst (λ xs. In c xs ↔ IsClash us them c) same (conflicts_of_iff us them c),
    )
