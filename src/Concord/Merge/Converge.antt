-- ===== src/Concord/Merge/Converge.antt =====
-- What a successful merge keeps: the lines that each hunk of either side inserts.
use please_hire_me.Prelude.{
  ℕ, ◌+◌, ◌-◌, ◌≤◌, ◌≡◌, refl, sym, ap, subst, ◌∙◌, ◌⊎◌, inl, inr, List, [], ◌∷◌, ◌++◌, arith,
  length, take, drop, append_assoc, Bool-cases, Text, text_eq, text_eq_iff, In, In-append_left,
  In-append_right, All-append, join-split, join_with,
}
use please_hire_me.Concord.Merge.{
  Line, Hunk, merged, conflicts_of, sort_hunks, splice_all, merge_hunks, merge3, split_lines,
  join_lines, diff_lines, newline,
}
use please_hire_me.Concord.Merge.Patch.{patch}
use please_hire_me.Concord.Merge.Diff.{diff_lines-InOrder, patch-diff_lines, diff_lines_self}
use please_hire_me.Concord.Merge.Splices.{
  Descends, sort_hunks-Descends, sort_hunks-In, splice_all-keeps, InOrder-AllApart, InOrder-All_le,
  conflicts_of-nil, AllApart-append,
}

pub join-split_lines : (t : Text) → join_lines (split_lines t) ≡ t
unfolding join_lines split_lines join_with
join-split_lines [] = refl
join-split_lines (c ∷ t) = join-split newline (c ∷ t)

-- The lines that a hunk inserts stand whole in a text.
abbrev pub Keeps : Hunk → List Line → Type 0
Keeps h lines = (pre : List Line) × (post : List Line) × (lines ≡ pre ++ (h.inserted ++ post))

patch-Keeps :
    (h : Hunk) (i : ℕ) (hs : List Hunk) (base : List Line) → In h hs → Keeps h (patch i hs base)
unfolding patch
patch-Keeps h i [] base m = elim m [ ]
patch-Keeps h i (k ∷ ks) base (inl e) = (
  take (k.start - i) base,
  patch (k.start + k.deleted) ks (drop (k.start - i + k.deleted) base),
  rw e,
)
patch-Keeps h i (k ∷ ks) base (inr m) =
    let (pre, post, e) =
      patch-Keeps h (k.start + k.deleted) ks (drop (k.start - i + k.deleted) base) m in
    let front : List Line = take (k.start - i) base in
    (
      front ++ (k.inserted ++ pre),
      post,
      ap (λ t. front ++ (k.inserted ++ t)) e
          ∙ ap (◌++◌ front) (sym (append_assoc k.inserted pre (h.inserted ++ post)))
          ∙ sym (append_assoc front (k.inserted ++ pre) (h.inserted ++ post)),
    )

-- Each edit of a text stands whole in it.
diff_lines-Keeps :
    (base other : List Line) (h : Hunk) → In h (diff_lines base other) → Keeps h other
diff_lines-Keeps base other h m =
    subst (Keeps h) (patch-diff_lines base other) (patch-Keeps h 0 (diff_lines base other) base m)

-- A successful merge of hunks had no conflict, and applied both sides.
pub merge_hunks-merged :
    (base : List Line) (ours theirs : List Hunk) (content : Text) (n : ℕ)
    → merge_hunks base ours theirs ≡ merged content n
    → (conflicts_of ours theirs ≡ [])
      × (content ≡ join_lines (splice_all (sort_hunks (ours ++ theirs)) base))
unfolding merge_hunks
merge_hunks-merged base ours theirs content n e = ground arith

-- Where neither side's hunks conflict, they are applied in an order in which none disturbs another.
pub merge_hunks-Descends :
    (base ours theirs : List Line)
    → let us = diff_lines base ours in
      let them = diff_lines base theirs in
      conflicts_of us them ≡ [] → Descends (length base) (sort_hunks (us ++ them))
merge_hunks-Descends base ours theirs e =
    let us : List Hunk = diff_lines base ours in
    let them : List Hunk = diff_lines base theirs in
    let w = diff_lines-InOrder base ours in
    let v = diff_lines-InOrder base theirs in
    sort_hunks-Descends (length base) (us ++ them)
      (All-append (λ h. h.start + h.deleted ≤ length base) us them
        (InOrder-All_le 0 (length base) us w) (InOrder-All_le 0 (length base) them v))
      (AllApart-append us them (InOrder-AllApart 0 (length base) us w)
        (InOrder-AllApart 0 (length base) them v) (conflicts_of-nil us them e))

merge_hunks-Keeps :
    (base ours theirs : List Line) (content : Text) (n : ℕ) (h : Hunk)
    → merge_hunks base (diff_lines base ours) (diff_lines base theirs) ≡ merged content n
    → In h (diff_lines base ours ++ diff_lines base theirs)
    → (lines : List Line) × (content ≡ join_lines lines) × Keeps h lines
merge_hunks-Keeps base ours theirs content n h e m =
    let us : List Hunk = diff_lines base ours in
    let them : List Hunk = diff_lines base theirs in
    let (apart, same) = merge_hunks-merged base us them content n e in
    (
      splice_all (sort_hunks (us ++ them)) base,
      same,
      splice_all-keeps h (sort_hunks (us ++ them)) base
          (merge_hunks-Descends base ours theirs apart) (sort_hunks-In h (us ++ them) m),
    )

whole_text :
    (base other content : Text) (h : Hunk)
    → content ≡ other
    → In h (diff_lines (split_lines base) (split_lines other))
    → (lines : List Line) × (content ≡ join_lines lines) × Keeps h lines
whole_text base other content h e m = (
  split_lines other,
  e ∙ sym (join-split_lines other),
  diff_lines-Keeps (split_lines base) (split_lines other) h m,
)

pub no_hunk :
    (base other : Text) (h : Hunk)
    → base ≡ other
    → In h (diff_lines (split_lines base) (split_lines other))
    → ⊥
no_hunk base other h e m =
    subst (In h)
      (ap (λ t. diff_lines (split_lines base) (split_lines t)) (sym e)
        ∙ diff_lines_self (split_lines base))
      m

-- If `merge3` succeeds, the lines of its result hold whole the lines that each hunk of either
-- side's diff against the base inserts.
pub merge3-Keeps :
    (base ours theirs content : Text) (n : ℕ) (h : Hunk)
    → merge3 base ours theirs ≡ merged content n
    → In h (diff_lines (split_lines base) (split_lines ours))
      ⊎ In h (diff_lines (split_lines base) (split_lines theirs))
    → (lines : List Line) × (content ≡ join_lines lines) × Keeps h lines
unfolding merge3
merge3-Keeps base ours theirs content n h e m = elim (Bool-cases (text_eq ours theirs)) [
  | inl same ↦
      let o = (text_eq_iff ours theirs).0 same in
      let c : content ≡ ours = ground arith in
      elim m [
        | inl a ↦ whole_text base ours content h c a
        | inr a ↦ whole_text base theirs content h (c ∙ o) a
      ]
  | inr differ ↦ elim (Bool-cases (text_eq base theirs)) [
    | inl b ↦ elim m [
      | inl a ↦ whole_text base ours content h (ground arith) a
      | inr a ↦ absurd (no_hunk base theirs h ((text_eq_iff base theirs).0 b) a)
    ]
    | inr b ↦ elim (Bool-cases (text_eq base ours)) [
      | inl c ↦ elim m [
        | inl a ↦ absurd (no_hunk base ours h ((text_eq_iff base ours).0 c) a)
        | inr a ↦ whole_text base theirs content h (ground arith) a
      ]
      | inr c ↦
          merge_hunks-Keeps (split_lines base) (split_lines ours) (split_lines theirs) content n h
            (ground arith)
            (elim m [
              | inl a ↦ In-append_left h _ (diff_lines (split_lines base) (split_lines theirs)) a
              | inr a ↦ In-append_right h (diff_lines (split_lines base) (split_lines ours)) _ a
            ])
    ]
  ]
]
