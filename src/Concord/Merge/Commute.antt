-- ===== src/Concord/Merge/Commute.antt =====
-- The order in which two concurrent edits reach `merge3` does not change the merged text.
use please_hire_me.Prelude.{
  ℕ, ◌≡◌, ◌≢◌, refl, sym, ap, ◌∙◌, inl, inr, false, List, [], ◌∷◌, ◌++◌, arith, length, append-nil,
  Text, text_eq_iff, All,
}
use please_hire_me.Concord.Merge.{
  Line, Hunk, merged, overlaps, conflicts_with, conflicts_of, insert_hunk, sort_hunks, splice_all,
  merge_hunks, merge3, split_lines, join_lines, diff_lines,
}
use please_hire_me.Concord.Merge.Splices.{Apart, conflicts_of-nil}

Apart-overlaps : (a b : Hunk) → Apart a b → overlaps b a ≡ false
unfolding overlaps
Apart-overlaps a b (inl h) = ground arith
Apart-overlaps a b (inr h) = ground arith

insert_hunk_comm :
    (a b : Hunk) (hs : List Hunk)
    → a.start ≢ b.start
    → insert_hunk a (insert_hunk b hs) ≡ insert_hunk b (insert_hunk a hs)
unfolding insert_hunk
insert_hunk_comm a b [] h = ground arith
insert_hunk_comm a b (k ∷ ks) h = ground (arith, insert_hunk_comm a b ks h)

Apart-start : (a b : Hunk) → Apart a b → a.start ≢ b.start
Apart-start a b (inl h) = λ e. absurd (omega arith)
Apart-start a b (inr h) = λ e. absurd (omega arith)

sort_hunks-middle :
    (h : Hunk) (xs ys : List Hunk)
    → All (λ x. Apart x h) xs
    → sort_hunks (xs ++ h ∷ ys) ≡ insert_hunk h (sort_hunks (xs ++ ys))
unfolding sort_hunks
sort_hunks-middle h [] ys w = refl
sort_hunks-middle h (x ∷ xs) ys w =
    ap (insert_hunk x) (sort_hunks-middle h xs ys w.1)
    ∙ insert_hunk_comm x h (sort_hunks (xs ++ ys)) (Apart-start x h w.0)

All-head :
    (h : Hunk) (ys xs : List Hunk) → All (λ x. All (Apart x) (h ∷ ys)) xs → All (λ x. Apart x h) xs
All-head h ys [] w = tt
All-head h ys (x ∷ xs) w = (w.0.0, All-head h ys xs w.1)

All-tail :
    (h : Hunk) (ys xs : List Hunk)
    → All (λ x. All (Apart x) (h ∷ ys)) xs
    → All (λ x. All (Apart x) ys) xs
All-tail h ys [] w = tt
All-tail h ys (x ∷ xs) w = (w.0.1, All-tail h ys xs w.1)

sort_hunks_comm :
    (xs ys : List Hunk)
    → All (λ x. All (Apart x) ys) xs
    → sort_hunks (xs ++ ys) ≡ sort_hunks (ys ++ xs)
unfolding sort_hunks
sort_hunks_comm xs [] w = ap sort_hunks (append-nil xs)
sort_hunks_comm xs (y ∷ ys) w =
    sort_hunks-middle y xs ys (All-head y ys xs w)
    ∙ ap (insert_hunk y) (sort_hunks_comm xs ys (All-tail y ys xs w))

conflicts_with-none :
    (h : Hunk) (xs : List Hunk) → All (λ x. Apart x h) xs → conflicts_with h xs ≡ []
unfolding conflicts_with
conflicts_with-none h [] w = refl
conflicts_with-none h (x ∷ xs) w = rw (Apart-overlaps x h w.0) (conflicts_with-none h xs w.1)

conflicts_of-none : (xs ys : List Hunk) → All (λ x. All (Apart x) ys) xs → conflicts_of ys xs ≡ []
unfolding conflicts_of
conflicts_of-none xs [] w = refl
conflicts_of-none xs (y ∷ ys) w =
    rw (conflicts_with-none y xs (All-head y ys xs w))
      (conflicts_of-none xs ys (All-tail y ys xs w))

merge_hunks_apart :
    (base : List Line) (ours theirs : List Hunk)
    → conflicts_of ours theirs ≡ []
    → merge_hunks base ours theirs
      ≡ merged
          (join_lines (splice_all (sort_hunks (ours ++ theirs)) base))
          (length (sort_hunks (ours ++ theirs)))
unfolding merge_hunks
merge_hunks_apart base ours theirs e = rw (e, merge_hunks)

merge_hunks-conflicts :
    (base : List Line) (ours theirs : List Hunk) (content : Text) (n : ℕ)
    → merge_hunks base ours theirs ≡ merged content n
    → conflicts_of ours theirs ≡ []
unfolding merge_hunks
merge_hunks-conflicts base ours theirs content n e = ground arith

merge_hunks_comm :
    (base : List Line) (ours theirs : List Hunk) (content : Text) (n : ℕ)
    → merge_hunks base ours theirs ≡ merged content n
    → merge_hunks base theirs ours ≡ merged content n
merge_hunks_comm base ours theirs content n e =
    let apart = merge_hunks-conflicts base ours theirs content n e in
    let w = conflicts_of-nil ours theirs apart in
    merge_hunks_apart base theirs ours (conflicts_of-none ours theirs w)
    ∙ ap (λ hs. merged (join_lines (splice_all hs base)) (length hs))
        (sym (sort_hunks_comm ours theirs w))
    ∙ sym (merge_hunks_apart base ours theirs apart)
    ∙ e

-- If `merge3` merges our text and theirs, it gives the same text and count with the two sides
-- exchanged.
pub merge3_comm :
    (base ours theirs content : Text) (n : ℕ)
    → merge3 base ours theirs ≡ merged content n
    → merge3 base theirs ours ≡ merged content n
unfolding merge3
merge3_comm base ours theirs content n e = ground (
  arith,
  text_eq_iff ours theirs,
  text_eq_iff theirs ours,
  text_eq_iff base theirs,
  text_eq_iff base ours,
  merge_hunks_comm (split_lines base) (diff_lines (split_lines base) (split_lines ours))
      (diff_lines (split_lines base) (split_lines theirs)) content n,
)
