-- ===== src/Concord/Store/Sizes.antt =====
-- How many lines `keepBoth` writes.
use please_hire_me.Prelude.{
  ℕ, suc, ◌+◌, ◌≤◌, ◌<◌, ◌≡◌, refl, sym, ap, ◌∙◌, inl, inr, true, false, List, [], ◌∷◌, ◌++◌, arith,
  Bool-cases, if◌then◌else◌, ◌==◌, ==_iff, length, length-append,
}
use please_hire_me.Concord.Merge.{Line, MergeConflict}
use please_hire_me.Concord.Store.KeepBoth.{
  anchor_of, Additions, added_at, add_at, collect, interleave,
}
use please_hire_me.Concord.Store.Anchors.{anchor_of-bound}

-- The lines that lost, over all contested ranges.
abbrev pub losing_lines : List MergeConflict → ℕ
losing_lines [] = 0
losing_lines (c ∷ cs) = length c.ours + losing_lines cs

pub added_at-add_at :
    (j k : ℕ) (ours : List Line) (m : Additions)
    → added_at k (add_at j ours m) ≡ (if j == k then added_at j m ++ ours else added_at k m)
unfolding added_at add_at
added_at-add_at j k ours [] = refl
added_at-add_at j k ours ((i, lines) ∷ m) =
    ground (arith, added_at-add_at j k ours m, ==_iff i j, ==_iff i k, ==_iff j k)

added_here :
    (j : ℕ) (ours : List Line) (m : Additions)
    → length (added_at j (add_at j ours m)) ≡ length (added_at j m) + length ours
added_here j ours m =
    let same : (j == j) ≡ true = (==_iff j j).1 refl in
    ap (λ (t : List Line). length t) (added_at-add_at j j ours m)
    ∙ rw same (length-append (added_at j m) ours)

added_elsewhere :
    (j k : ℕ) (ours : List Line) (m : Additions)
    → (j == k) ≡ false
    → length (added_at k (add_at j ours m)) ≡ length (added_at k m)
added_elsewhere j k ours m other =
    ap (λ (t : List Line). length t) (added_at-add_at j k ours m) ∙ rw other refl

interleave-before :
    (j i : ℕ) (ours : List Line) (m : Additions) (xs : List Line)
    → j < i
    → length (interleave (add_at j ours m) i xs) ≡ length (interleave m i xs)
unfolding interleave
interleave-before j i ours m [] l = added_elsewhere j i ours m (ground (arith, ==_iff j i))
interleave-before j i ours m (x ∷ xs) l =
    let here = added_elsewhere j i ours m (ground (arith, ==_iff j i)) in
    let rest = interleave-before j (suc i) ours m xs (omega arith) in
    length-append (added_at i (add_at j ours m)) (x ∷ interleave (add_at j ours m) (suc i) xs)
    ∙ omega (arith, here, rest, length-append (added_at i m) (x ∷ interleave m (suc i) xs))

interleave-add_at :
    (j i : ℕ) (ours : List Line) (m : Additions) (xs : List Line)
    → i ≤ j
    → j ≤ i + length xs
    → length (interleave (add_at j ours m) i xs) ≡ length (interleave m i xs) + length ours
unfolding interleave
interleave-add_at j i ours m [] a b = let e : i ≡ j = omega arith in rw e (added_here j ours m)
interleave-add_at j i ours m (x ∷ xs) a b =
    let whole =
      length-append (added_at i (add_at j ours m)) (x ∷ interleave (add_at j ours m) (suc i) xs) in
    let old = length-append (added_at i m) (x ∷ interleave m (suc i) xs) in
    elim (Bool-cases (j == i)) [
      | inl e ↦
          let s : i ≡ j = sym ((==_iff j i).0 e) in
          let here : length (added_at i (add_at j ours m)) ≡ length (added_at i m) + length ours =
            rw s (added_here j ours m) in
          let rest = interleave-before j (suc i) ours m xs (omega arith) in omega arith
      | inr n ↦
          let here = added_elsewhere j i ours m n in
          let apart : suc i ≤ j = ground (arith, ==_iff j i) in
          let rest = interleave-add_at j (suc i) ours m xs apart (omega arith) in omega arith
    ]

interleave-nil : (i : ℕ) (xs : List Line) → length (interleave [] i xs) ≡ length xs
unfolding interleave added_at
interleave-nil i [] = refl
interleave-nil i (x ∷ xs) = ap suc (interleave-nil (suc i) xs)

collect-length :
    (lines : List Line) (cs : List MergeConflict) (m : Additions)
    → length (interleave (collect lines cs m) 0 lines)
      ≡ length (interleave m 0 lines) + losing_lines cs
unfolding collect
collect-length lines [] m = omega arith
collect-length lines (c ∷ cs) m =
    let rest = collect-length lines cs (add_at (anchor_of lines c) c.ours m) in
    let bound = anchor_of-bound lines c in
    let here = interleave-add_at (anchor_of lines c) 0 c.ours m lines (omega arith) (omega arith) in
    rest ∙ omega arith

-- Nothing is written but the lines of the text and the lines that lost.
pub interleave-length :
    (lines : List Line) (cs : List MergeConflict)
    → length (interleave (collect lines cs []) 0 lines) ≡ length lines + losing_lines cs
interleave-length lines cs =
    let all = collect-length lines cs [] in let none_yet = interleave-nil 0 lines in omega arith
