-- ===== src/Concord/Merge/Applied.antt =====
-- What a successful `merge3` does: it applies the hunks of both sides to the base.
use please_hire_me.Prelude.{
  ℕ, suc, ◌+◌, ◌≤◌, ◌<◌, ltb, All, All-append, ◌≡◌, ◌↔◌, sym, ap, subst, ◌∙◌, ◌⊎◌, inl, inr, List,
  [], ◌∷◌, ◌++◌, arith, length, Text, In, In-append_left, In-append_right, In-append_cases,
  Bool-cases, text_eq, text_eq_iff,
}
use please_hire_me.Concord.Merge.{
  Line, Hunk, merged, conflicts_of, insert_hunk, sort_hunks, merge_hunks, merge3, split_lines,
  join_lines, diff_lines,
}
use please_hire_me.Concord.Merge.Patch.{patch, InOrder}
use please_hire_me.Concord.Merge.Diff.{diff_lines-InOrder, patch-diff_lines}
use please_hire_me.Concord.Merge.Splices.{
  sort_hunks-In, Apart, AllApart, sort_hunks-All, AllApart-append, InOrder-AllApart,
  conflicts_of-nil,
}
use please_hire_me.Concord.Merge.Converge.{
  join-split_lines, no_hunk, merge_hunks-merged, merge_hunks-Descends,
}
use please_hire_me.Concord.Merge.Ascending.{
  Ascends, ascending, ascending-Ascends, splice_all-patch, Climbs, Falls, Falls-Climbs,
}

-- The text is the base with exactly the hunks of the two lists applied, from the first to the last.
abbrev pub Applies : List Line → List Hunk → List Hunk → Text → Type 0
Applies base ours theirs content =
    (all : List Hunk) × Ascends 0 all (length base)
    × Climbs 0 all
    × ((h : Hunk) → In h all ↔ (In h ours ⊎ In h theirs))
    × (content ≡ join_lines (patch 0 all base))

In-ascending : (h : Hunk) (hs : List Hunk) → In h (ascending hs) ↔ In h hs
In-ascending h [] = (λ m. m, λ m. m)
In-ascending h (k ∷ ks) = (
  λ m. elim (In-append_cases h (ascending ks) (k ∷ []) m) [
    | inl i ↦ inr ((In-ascending h ks).0 i)
    | inr (inl e) ↦ inl e
    | inr (inr n) ↦ absurd n
  ],
  λ m. elim m [
    | inl e ↦ In-append_right h (ascending ks) (k ∷ []) (inl e)
    | inr i ↦ In-append_left h (ascending ks) (k ∷ []) ((In-ascending h ks).1 i)
  ],
)

In-insert_hunk : (g h : Hunk) (hs : List Hunk) → In g (insert_hunk h hs) → (g ≡ h) ⊎ In g hs
unfolding insert_hunk
In-insert_hunk g h [] m = m
In-insert_hunk g h (k ∷ ks) m = ground (arith, In-insert_hunk g h ks)

In-sort_hunks : (g : Hunk) (hs : List Hunk) → In g (sort_hunks hs) → In g hs
unfolding sort_hunks
In-sort_hunks g [] m = m
In-sort_hunks g (h ∷ hs) m = elim (In-insert_hunk g h (sort_hunks hs) m) [
  | inl e ↦ inl e
  | inr i ↦ inr (In-sort_hunks g hs i)
]

-- What stands in order ascends; the next hunk may begin a line further on.
InOrder-Ascends :
    (i n : ℕ) (hs : List Hunk) → i ≤ n → (k : ℕ) → i ≤ k → InOrder k n hs → Ascends i hs n
InOrder-Ascends i n [] w k v o = w
InOrder-Ascends i n (h ∷ hs) w k v o = (
  omega (arith, o.0),
  InOrder-Ascends (h.start + h.deleted) n hs o.1 (suc (h.start + h.deleted)) (omega arith) o.3,
)

-- What stands in order climbs, since an untouched line separates each hunk from the next.
InOrder-Climbs : (k i n : ℕ) (hs : List Hunk) → k ≤ i → InOrder i n hs → Climbs k hs
InOrder-Climbs k i n [] w o = tt
InOrder-Climbs k i n (h ∷ hs) w o = (
  omega (arith, o.0),
  InOrder-Climbs (suc h.start) (suc (h.start + h.deleted)) n hs (omega arith) o.3,
)

insert_hunk-Falls :
    (n : ℕ) (h : Hunk) (hs : List Hunk)
    → h.start < n
    → Falls n hs
    → All (Apart h) hs
    → Falls n (insert_hunk h hs)
unfolding insert_hunk
insert_hunk-Falls n h [] m w a = (m, tt)
insert_hunk-Falls n h (k ∷ ks) m w a = elim (Bool-cases (ltb h.start k.start)) [
  | inl before ↦ rw before (w.0, insert_hunk-Falls k.start h ks (ground arith) w.1 a.1)
  | inr after ↦ rw after (m, (ground arith, w.1))
]

sort_hunks-Falls :
    (n : ℕ) (hs : List Hunk) → All (λ h. h.start < n) hs → AllApart hs → Falls n (sort_hunks hs)
unfolding sort_hunks
sort_hunks-Falls n [] m a = tt
sort_hunks-Falls n (h ∷ hs) m a =
    insert_hunk-Falls n h (sort_hunks hs) m.0 (sort_hunks-Falls n hs m.1 a.1)
      (sort_hunks-All (Apart h) hs a.0)

InOrder-starts : (i n : ℕ) (hs : List Hunk) → InOrder i n hs → All (λ h. h.start < suc n) hs
InOrder-starts i n [] o = tt
InOrder-starts i n (h ∷ hs) o =
    (omega (arith, o.1), InOrder-starts (suc (h.start + h.deleted)) n hs o.3)

merge_hunks-Falls :
    (base ours theirs : List Line)
    → conflicts_of (diff_lines base ours) (diff_lines base theirs) ≡ []
    → Falls (suc (length base)) (sort_hunks (diff_lines base ours ++ diff_lines base theirs))
merge_hunks-Falls base ours theirs apart =
    let us : List Hunk = diff_lines base ours in
    let them : List Hunk = diff_lines base theirs in
    let n = length base in
    let w = diff_lines-InOrder base ours in
    let v = diff_lines-InOrder base theirs in
    sort_hunks-Falls (suc n) (us ++ them)
      (All-append (λ h. h.start < suc n) us them (InOrder-starts 0 n us w)
        (InOrder-starts 0 n them v))
      (AllApart-append us them (InOrder-AllApart 0 n us w) (InOrder-AllApart 0 n them v)
        (conflicts_of-nil us them apart))

merge_hunks-Applies :
    (base ours theirs : List Line) (content : Text) (n : ℕ)
    → merge_hunks base (diff_lines base ours) (diff_lines base theirs) ≡ merged content n
    → Applies base (diff_lines base ours) (diff_lines base theirs) content
merge_hunks-Applies base ours theirs content n e =
    let us : List Hunk = diff_lines base ours in
    let them : List Hunk = diff_lines base theirs in
    let (apart, same) = merge_hunks-merged base us them content n e in
    let d = merge_hunks-Descends base ours theirs apart in
    let sorted : List Hunk = sort_hunks (us ++ them) in
    (
      ascending sorted,
      ascending-Ascends (length base) sorted d,
      Falls-Climbs (suc (length base)) sorted (merge_hunks-Falls base ours theirs apart),
      λ h. (
        λ m. In-append_cases h us them (In-sort_hunks h (us ++ them) ((In-ascending h sorted).0 m)),
        λ m. (In-ascending h sorted).1 (
            sort_hunks-In h (us ++ them) (elim m [
              | inl i ↦ In-append_left h us them i
              | inr i ↦ In-append_right h us them i
            ])),
      ),
      same ∙ ap join_lines (splice_all-patch sorted base d),
    )

-- One side's hunks, where they are all that there is.
one_side :
    (base other content : Text) (ours theirs : List Hunk)
    → content ≡ other
    → ((h : Hunk)
        → In h (diff_lines (split_lines base) (split_lines other)) ↔ (In h ours ⊎ In h theirs))
    → Applies (split_lines base) ours theirs content
one_side base other content ours theirs e both = (
  diff_lines (split_lines base) (split_lines other),
  InOrder-Ascends 0 (length (split_lines base)) (diff_lines (split_lines base) (split_lines other))
      (omega arith) 0 (omega arith) (diff_lines-InOrder (split_lines base) (split_lines other)),
  InOrder-Climbs 0 0 (length (split_lines base)) (diff_lines (split_lines base) (split_lines other))
      (omega arith) (diff_lines-InOrder (split_lines base) (split_lines other)),
  both,
  e
      ∙ sym (join-split_lines other)
      ∙ ap join_lines (sym (patch-diff_lines (split_lines base) (split_lines other))),
)

-- If `merge3` succeeds, its result is the base with exactly the hunks of both sides' diffs applied.
pub merge3-Applies :
    (base ours theirs content : Text) (n : ℕ)
    → merge3 base ours theirs ≡ merged content n
    → Applies
        (split_lines base)
        (diff_lines (split_lines base) (split_lines ours))
        (diff_lines (split_lines base) (split_lines theirs))
        content
unfolding merge3
merge3-Applies base ours theirs content n e =
    let us : List Hunk = diff_lines (split_lines base) (split_lines ours) in
    let them : List Hunk = diff_lines (split_lines base) (split_lines theirs) in
    elim (Bool-cases (text_eq ours theirs)) [
      | inl same ↦
          let o = (text_eq_iff ours theirs).0 same in
          one_side base ours content us them (ground arith) λ h. (
            λ m. inl m,
            λ m. elim m [
              | inl i ↦ i
              | inr i ↦ subst (λ t. In h (diff_lines (split_lines base) (split_lines t))) (sym o) i
            ],
          )
      | inr differ ↦ elim (Bool-cases (text_eq base theirs)) [
        | inl b ↦ one_side base ours content us them (ground arith) λ h. (
          λ m. inl m,
          λ m. elim m [
            | inl i ↦ i
            | inr i ↦ absurd (no_hunk base theirs h ((text_eq_iff base theirs).0 b) i)
          ],
        )
        | inr b ↦ elim (Bool-cases (text_eq base ours)) [
          | inl c ↦ one_side base theirs content us them (ground arith) λ h. (
            λ m. inr m,
            λ m. elim m [
              | inl i ↦ absurd (no_hunk base ours h ((text_eq_iff base ours).0 c) i)
              | inr i ↦ i
            ],
          )
          | inr c ↦
              merge_hunks-Applies (split_lines base) (split_lines ours) (split_lines theirs) content
                n (ground arith)
        ]
      ]
    ]
