-- ===== src/Concord/Store/BothKept.antt =====
-- Keeping both: every committed line stays, and the losing lines of a contested range stand behind the
-- lines that won it.
use please_hire_me.Prelude.{
  ℕ, suc, ◌+◌, ◌≤◌, ◌≡◌, refl, sym, ap, subst, ◌∙◌, zero, inl, inr, true, take, drop, List, [], ◌∷◌,
  ◌++◌, arith, append-nil, append_assoc, Bool-cases, ◌==◌, ==_iff, length, In, Text,
}
use please_hire_me.Concord.Merge.{Line, MergeConflict, join_lines}
use please_hire_me.Concord.Store.KeepBoth.{
  anchor_of, Additions, added_at, add_at, collect, interleave, lines_of, keep_both,
}
use please_hire_me.Concord.Store.Sizes.{losing_lines, added_at-add_at, interleave-length}
use please_hire_me.Concord.Store.Anchors.{WonAt, anchor_of-bound, anchor_of-WonAt}

-- The first lines stand in the others, one behind the other.
abbrev pub IsInfix : List Line → List Line → Type 0
IsInfix xs ys = (pre : List Line) × (post : List Line) × (ys ≡ pre ++ (xs ++ post))

-- The first lines stand in the others in their order, with lines between them or not.
abbrev pub IsSubsequence : List Line → List Line → Type 0
IsSubsequence [] ys = Unit {0}
IsSubsequence (x ∷ xs) ys =
    (pre : List Line) × (post : List Line) × (ys ≡ pre ++ x ∷ post) × IsSubsequence xs post

append-IsInfix_left : (xs ys zs : List Line) → IsInfix xs ys → IsInfix xs (ys ++ zs)
append-IsInfix_left xs ys zs (pre, post, e) = (
  pre,
  post ++ zs,
  ap (λ t. t ++ zs) e ∙ append_assoc pre (xs ++ post) zs ∙ ap (◌++◌ pre) (append_assoc xs post zs),
)

interleave-IsSubsequence :
    (m : Additions) (i : ℕ) (lines : List Line) → IsSubsequence lines (interleave m i lines)
unfolding interleave
interleave-IsSubsequence m i [] = tt
interleave-IsSubsequence m i (x ∷ xs) =
    (added_at i m, interleave m (suc i) xs, refl, interleave-IsSubsequence m (suc i) xs)

-- The lines from one place on, and those before it, each within its own part of the result, with what
-- is added there between them.
pub record IsBehind (front xs back out : List Line) : Type 0 where
  pub first : List Line
  pub second : List Line
  pub split : out ≡ first ++ (xs ++ second)
  pub before : IsSubsequence front first
  pub after : IsSubsequence back second

i-zero : (i : ℕ) → i + 0 ≡ i
i-zero i = omega arith

interleave-IsBehind :
    (m : Additions) (i n : ℕ) (xs lines : List Line)
    → n ≤ length lines
    → IsInfix xs (added_at (i + n) m)
    → IsBehind (take n lines) xs (drop n lines) (interleave m i lines)
unfolding interleave
interleave-IsBehind m i zero xs [] h f =
    let here : IsInfix xs (added_at i m) = subst (λ k. IsInfix xs (added_at k m)) (i-zero i) f in
    record { first = here.0; second = here.1; split = here.2; before = tt; after = tt }
interleave-IsBehind m i zero xs (y ∷ ys) h f =
    let (pre, post, e) : IsInfix xs (added_at i m) =
      subst (λ k. IsInfix xs (added_at k m)) (i-zero i) f in
    let rest = interleave m (suc i) ys in
    record {
      first = pre;
      second = post ++ y ∷ rest;
      split =
          ap (λ t. t ++ y ∷ rest) e
          ∙ append_assoc pre (xs ++ post) (y ∷ rest)
          ∙ ap (◌++◌ pre) (append_assoc xs post (y ∷ rest));
      before = tt;
      after = (post, rest, refl, interleave-IsSubsequence m (suc i) ys);
    }
interleave-IsBehind m i (suc n) xs [] h f = absurd (omega arith)
interleave-IsBehind m i (suc n) xs (y ∷ ys) h f =
    let next : i + suc n ≡ suc i + n = omega arith in
    let rest =
      interleave-IsBehind m (suc i) n xs ys (omega arith)
        (subst (λ k. IsInfix xs (added_at k m)) next f) in
    record {
      first = added_at i m ++ y ∷ rest.first;
      second = rest.second;
      split =
          ap (λ t. added_at i m ++ y ∷ t) rest.split
          ∙ sym (append_assoc (added_at i m) (y ∷ rest.first) (xs ++ rest.second));
      before = (added_at i m, rest.first, refl, rest.before);
      after = rest.after;
    }

collect-IsInfix_old :
    (lines : List Line) (cs : List MergeConflict) (m : Additions) (k : ℕ) (xs : List Line)
    → IsInfix xs (added_at k m)
    → IsInfix xs (added_at k (collect lines cs m))
unfolding collect
collect-IsInfix_old lines [] m k xs f = f
collect-IsInfix_old lines (c ∷ cs) m k xs f =
    let j = anchor_of lines c in
    collect-IsInfix_old lines cs (add_at j c.ours m) k xs (elim (Bool-cases (j == k)) [
      | inl e ↦ subst (IsInfix xs) (sym (added_at-add_at j k c.ours m)) (
          rw e (
            append-IsInfix_left xs (added_at j m) c.ours
              (subst (λ n. IsInfix xs (added_at n m)) (sym ((==_iff j k).0 e)) f)))
      | inr e ↦ subst (IsInfix xs) (sym (added_at-add_at j k c.ours m)) (rw e f)
    ])

collect-IsInfix-In :
    (lines : List Line) (cs : List MergeConflict) (m : Additions) (c : MergeConflict)
    → In c cs
    → IsInfix c.ours (added_at (anchor_of lines c) (collect lines cs m))
unfolding collect
collect-IsInfix-In lines [] m c i = elim i [ ]
collect-IsInfix-In lines (d ∷ cs) m c (inr i) =
    collect-IsInfix-In lines cs (add_at (anchor_of lines d) d.ours m) c i
collect-IsInfix-In lines (d ∷ cs) m c (inl e) =
    let j = anchor_of lines d in
    let same : (j == j) ≡ true = (==_iff j j).1 refl in
    let here : IsInfix d.ours (added_at j (add_at j d.ours m)) =
      subst (IsInfix d.ours) (sym (added_at-add_at j j d.ours m))
        (rw same (added_at j m, [], ap (◌++◌ (added_at j m)) (sym (append-nil d.ours)))) in
    subst
      (λ (t : MergeConflict).
        IsInfix t.ours (added_at (anchor_of lines t) (collect lines cs (add_at j d.ours m))))
      (sym e) (collect-IsInfix_old lines cs (add_at j d.ours m) j d.ours here)

-- Keeping both: the result has every line of the committed text, in order, and besides them as many
-- lines as the contested ranges' losing sides have together. Each contested range's losing lines stand
-- in it one behind the other, after the committed lines up to the first run of the lines that won the
-- range and before the rest of them, or after all where no such run is. Nothing is
-- said of what the losing side changed outside the contested ranges.
pub keep_both-IsBehind :
    (theirs : Text) (conflicts : List MergeConflict) (range : MergeConflict)
    → In range conflicts
    → (out : List Line) × (keep_both theirs conflicts ≡ join_lines out)
      × IsSubsequence (lines_of theirs) out
      × (length out ≡ length (lines_of theirs) + losing_lines conflicts)
      × ((front : List Line) × (back : List Line) × WonAt range.theirs (lines_of theirs) front back
          × IsBehind front range.ours back out)
unfolding keep_both
keep_both-IsBehind theirs conflicts range i =
    let lines = lines_of theirs in
    let m = collect lines conflicts [] in
    let k = anchor_of lines range in
    let place : k ≡ 0 + k = omega arith in
    (
      interleave m 0 lines,
      refl,
      interleave-IsSubsequence m 0 lines,
      interleave-length lines conflicts,
      (
        take k lines,
        drop k lines,
        anchor_of-WonAt lines range,
        interleave-IsBehind m 0 k range.ours lines (anchor_of-bound lines range) (
            subst (λ n. IsInfix range.ours (added_at n m)) place
              (collect-IsInfix-In lines conflicts [] range i)),
      ),
    )
