-- ===== src/Concord/Merge/Splices.antt =====
-- Splicing hunks from right to left, and the order in which `merge3` applies them.
use please_hire_me.Prelude.{
  ℕ, suc, ◌+◌, ◌≤◌, ◌≡◌, refl, sym, ap, ◌∙◌, ◌⊎◌, inl, inr, false, List, [], ◌∷◌, ◌++◌, arith,
  length, take, drop, append_assoc, Bool-cases, ltb, All, In, take-append_le, drop-append_le,
  length-take_le, All-append,
}
use please_hire_me.Concord.Merge.{
  Line, Hunk, MergeConflict, hunk_end, overlaps, conflicts_with, conflicts_of, insert_hunk,
  sort_hunks, splice, splice_all,
}
use please_hire_me.Concord.Merge.Patch.{InOrder}

-- The hunks stand below `n`, the last one first, and none reaches into the one before it.
abbrev pub Descends : ℕ → List Hunk → Type 0
Descends n [] = Unit {0}
Descends n (h ∷ hs) = (h.start + h.deleted ≤ n) × Descends h.start hs

-- Neither range reaches into the other.
abbrev pub Apart : Hunk → Hunk → Type 0
Apart a b = (hunk_end a ≤ b.start) ⊎ (hunk_end b ≤ a.start)

abbrev pub AllApart : List Hunk → Type 0
AllApart [] = Unit {0}
AllApart (h ∷ hs) = All (Apart h) hs × AllApart hs

-- A splice in front leaves what stands behind it.
splice-append :
    (h : Hunk) (front back : List Line)
    → h.start + h.deleted ≤ length front
    → splice h (front ++ back) ≡ splice h front ++ back
unfolding splice
splice-append h front back w = rw (take-append_le h.start front back (omega arith)) (
    rw (drop-append_le (h.start + h.deleted) front back w) (
      sym
        (append_assoc (take h.start front ++ h.inserted) (drop (h.start + h.deleted) front) back)))

splice-split :
    (h : Hunk) (lines : List Line)
    → splice h lines ≡ take h.start lines ++ (h.inserted ++ drop (h.start + h.deleted) lines)
unfolding splice
splice-split h lines = append_assoc (take h.start lines) h.inserted _

pub splice_all-append :
    (hs : List Hunk) (front back : List Line)
    → Descends (length front) hs
    → splice_all hs (front ++ back) ≡ splice_all hs front ++ back
unfolding splice_all
splice_all-append [] front back w = refl
splice_all-append (h ∷ hs) front back (m, w) =
    let len : length (take h.start front) ≡ h.start = length-take_le h.start front (omega arith) in
    let w' : Descends (length (take h.start front)) hs = rw len w in
    let tail' : List Line = h.inserted ++ drop (h.start + h.deleted) front in
    rw (splice-append h front back m) (
      rw (splice-split h front) (
        ap (splice_all hs) (append_assoc (take h.start front) tail' back)
        ∙ splice_all-append hs (take h.start front) (tail' ++ back) w'
        ∙ sym (append_assoc (splice_all hs (take h.start front)) tail' back)
        ∙ ap (λ t. t ++ back) (sym (splice_all-append hs (take h.start front) tail' w'))))

-- What the head of a descending list does to the text, and what is left to its tail.
pub splice_all-cons :
    (h : Hunk) (hs : List Hunk) (lines : List Line)
    → Descends (length lines) (h ∷ hs)
    → splice_all (h ∷ hs) lines
      ≡ splice_all hs (take h.start lines) ++ (h.inserted ++ drop (h.start + h.deleted) lines)
unfolding splice_all
splice_all-cons h hs lines (m, w) =
    let len : length (take h.start lines) ≡ h.start = length-take_le h.start lines (omega arith) in
    ap (splice_all hs) (splice-split h lines)
    ∙ splice_all-append hs (take h.start lines) _ (rw len w)

Apart-sym : (a b : Hunk) → Apart a b → Apart b a
Apart-sym a b (inl h) = inr h
Apart-sym a b (inr h) = inl h

-- Two hunks that do not overlap lie apart.
not_overlaps-Apart : (a b : Hunk) → overlaps a b ≡ false → Apart a b
unfolding overlaps
not_overlaps-Apart a b e = ground arith

insert_hunk-All :
    (P : Hunk → Type 0) (h : Hunk) (hs : List Hunk) → P h → All P hs → All P (insert_hunk h hs)
unfolding insert_hunk
insert_hunk-All P h [] p w = (p, tt)
insert_hunk-All P h (k ∷ ks) p w = ground (arith, insert_hunk-All P h ks p w.1)

pub sort_hunks-All : (P : Hunk → Type 0) (hs : List Hunk) → All P hs → All P (sort_hunks hs)
unfolding sort_hunks
sort_hunks-All P [] w = tt
sort_hunks-All P (h ∷ hs) w = insert_hunk-All P h (sort_hunks hs) w.0 (sort_hunks-All P hs w.1)

insert_hunk-Descends :
    (n : ℕ) (h : Hunk) (hs : List Hunk)
    → h.start + h.deleted ≤ n
    → Descends n hs
    → All (Apart h) hs
    → Descends n (insert_hunk h hs)
unfolding insert_hunk
insert_hunk-Descends n h [] m w a = (m, tt)
insert_hunk-Descends n h (k ∷ ks) m w a = elim (Bool-cases (ltb h.start k.start)) [
  | inl before ↦ rw before (w.0, insert_hunk-Descends k.start h ks (ground arith) w.1 a.1)
  | inr after ↦ rw after (m, (ground arith, w.1))
]

-- Hunks that lie apart descend once they are sorted.
pub sort_hunks-Descends :
    (n : ℕ) (hs : List Hunk)
    → All (λ h. h.start + h.deleted ≤ n) hs
    → AllApart hs
    → Descends n (sort_hunks hs)
unfolding sort_hunks
sort_hunks-Descends n [] m a = tt
sort_hunks-Descends n (h ∷ hs) m a =
    insert_hunk-Descends n h (sort_hunks hs) m.0 (sort_hunks-Descends n hs m.1 a.1)
      (sort_hunks-All (Apart h) hs a.0)

insert_hunk-In_self : (h : Hunk) (hs : List Hunk) → In h (insert_hunk h hs)
unfolding insert_hunk
insert_hunk-In_self h [] = inl refl
insert_hunk-In_self h (k ∷ ks) = ground (arith, insert_hunk-In_self h ks)

insert_hunk-In : (g h : Hunk) (hs : List Hunk) → In g hs → In g (insert_hunk h hs)
unfolding insert_hunk
insert_hunk-In g h [] w = elim w [ ]
insert_hunk-In g h (k ∷ ks) w = ground (arith, insert_hunk-In g h ks)

pub sort_hunks-In : (g : Hunk) (hs : List Hunk) → In g hs → In g (sort_hunks hs)
unfolding sort_hunks
sort_hunks-In g [] w = elim w [ ]
sort_hunks-In g (h ∷ hs) (inl e) = rw e (insert_hunk-In_self h (sort_hunks hs))
sort_hunks-In g (h ∷ hs) (inr w) = insert_hunk-In g h (sort_hunks hs) (sort_hunks-In g hs w)

-- The text of a hunk in a descending list stands whole in the result.
pub splice_all-keeps :
    (h : Hunk) (hs : List Hunk) (lines : List Line)
    → Descends (length lines) hs
    → In h hs
    → (pre : List Line) × (post : List Line) × (splice_all hs lines ≡ pre ++ (h.inserted ++ post))
splice_all-keeps h [] lines w m = elim m [ ]
splice_all-keeps h (k ∷ ks) lines w (inl e) = (
  splice_all ks (take k.start lines),
  drop (k.start + k.deleted) lines,
  rw e (splice_all-cons k ks lines w),
)
splice_all-keeps h (k ∷ ks) lines w (inr m) =
    let len : length (take k.start lines) ≡ k.start =
      length-take_le k.start lines (omega (arith, w.0)) in
    let (pre, post, e) = splice_all-keeps h ks (take k.start lines) (rw len w.1) m in
    let rest : List Line = k.inserted ++ drop (k.start + k.deleted) lines in
    (
      pre,
      post ++ rest,
      splice_all-cons k ks lines w
          ∙ ap (λ t. t ++ rest) e
          ∙ append_assoc pre (h.inserted ++ post) rest
          ∙ ap (◌++◌ pre) (append_assoc h.inserted post rest),
    )

-- The hunks of one diff lie apart.
InOrder-Apart :
    (h : Hunk) (i n : ℕ) (hs : List Hunk) → hunk_end h ≤ i → InOrder i n hs → All (Apart h) hs
InOrder-Apart h i n [] e w = tt
InOrder-Apart h i n (k ∷ ks) e w = (
  inl (omega (arith, w.0)),
  InOrder-Apart h (suc (k.start + k.deleted)) n ks (omega (arith, w.0)) w.3,
)

pub InOrder-AllApart : (i n : ℕ) (hs : List Hunk) → InOrder i n hs → AllApart hs
InOrder-AllApart i n [] w = tt
InOrder-AllApart i n (h ∷ hs) w = (
  InOrder-Apart h (suc (h.start + h.deleted)) n hs (omega arith) w.3,
  InOrder-AllApart (suc (h.start + h.deleted)) n hs w.3,
)

pub InOrder-All_le :
    (i n : ℕ) (hs : List Hunk) → InOrder i n hs → All (λ h. h.start + h.deleted ≤ n) hs
InOrder-All_le i n [] w = tt
InOrder-All_le i n (h ∷ hs) w = (w.1, InOrder-All_le (suc (h.start + h.deleted)) n hs w.3)

-- No conflict is reported exactly when the two sides lie apart.
conflicts_with-nil : (h : Hunk) (hs : List Hunk) → conflicts_with h hs ≡ [] → All (Apart h) hs
unfolding conflicts_with
conflicts_with-nil h [] e = tt
conflicts_with-nil h (k ∷ ks) e = ground (arith, conflicts_with-nil h ks, not_overlaps-Apart h k)

append-nil_parts : (xs ys : List MergeConflict) → xs ++ ys ≡ [] → (xs ≡ []) × (ys ≡ [])
append-nil_parts [] ys e = (refl, e)
append-nil_parts (x ∷ xs) ys e = cc

pub conflicts_of-nil :
    (ours theirs : List Hunk) → conflicts_of ours theirs ≡ [] → All (λ h. All (Apart h) theirs) ours
unfolding conflicts_of
conflicts_of-nil [] theirs e = tt
conflicts_of-nil (h ∷ ours) theirs e =
    let (here, later) = append-nil_parts (conflicts_with h theirs) (conflicts_of ours theirs) e in
    (conflicts_with-nil h theirs here, conflicts_of-nil ours theirs later)

pub AllApart-append :
    (xs ys : List Hunk)
    → AllApart xs
    → AllApart ys
    → All (λ h. All (Apart h) ys) xs
    → AllApart (xs ++ ys)
AllApart-append [] ys a b c = b
AllApart-append (x ∷ xs) ys a b c =
    (All-append (Apart x) xs ys a.0 c.0, AllApart-append xs ys a.1 b c.1)
