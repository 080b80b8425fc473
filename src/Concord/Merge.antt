-- ===== src/Concord/Merge.antt =====
-- apps/server/src/concord/merge.ts: the line diff and the three-way merge.
pub mod Patch
pub mod Diff
pub mod Splices
pub mod Converge
pub mod Commute
pub mod Ascending
pub mod Applied
pub mod Clashes
use please_hire_me.Prelude.{
  ℕ, suc, ◌+◌, ◌-◌, Bool, true, false, ◌&&◌, Option, none, some, List, [], ◌∷◌, ◌++◌, max, min,
  if◌then◌else◌, ltb, leb, ◌==◌, length, get_or, replicate, take, drop, Text, text_eq, split_on,
  join_with,
}

abbrev pub Line : Type 0
Line = Text

pub record Hunk : Type 0 where
  pub start : ℕ
  pub deleted : ℕ
  pub inserted : List Line

pub record MergeConflict : Type 0 where
  pub base_start : ℕ
  pub base_end : ℕ
  pub ours : List Line
  pub theirs : List Line

pub data MergeResult : Type 0 where
  merged : Text → ℕ → MergeResult
  conflicted : List MergeConflict → MergeResult

abbrev pub newline : ℕ
newline = 10

unfoldable pub split_lines : Text → List Line
split_lines [] = []
split_lines (c ∷ s) = split_on newline (c ∷ s)

unfoldable pub join_lines : List Line → Text
join_lines lines = join_with newline lines

-- One row of the table, from the line `x` of `a` and the row below it. A row has an entry for each
-- suffix of `b`.
unfoldable pub lcs_row : Line → List Line → List ℕ → List ℕ
lcs_row x [] next = 0 ∷ []
lcs_row x (y ∷ ys) next =
    let row = lcs_row x ys (drop 1 next) in
    (if text_eq x y then get_or next 1 0 + 1 else max (get_or next 0 0) (get_or row 0 0)) ∷ row

unfoldable pub lcs_lengths : List Line → List Line → List (List ℕ)
unfolding lcs_row
lcs_lengths [] b = replicate (length b + 1) 0 ∷ []
lcs_lengths (x ∷ a) b = let table = lcs_lengths a b in lcs_row x b (get_or table 0 []) ∷ table

-- `pendingStart`, `deleted` and `inserted`; `none` is a `pendingStart` of -1.
abbrev pub Pending : Type 0
Pending = Option Hunk

abbrev pub open_at : ℕ → Pending → Hunk
open_at i none = record { start = i; deleted = 0; inserted = [] }
open_at i (some h) = h

abbrev pub delete_lines : ℕ → Hunk → Hunk
delete_lines n h = record h { deleted = h.deleted + n }

abbrev pub insert_lines : List Line → Hunk → Hunk
insert_lines ls h = record h { inserted = h.inserted ++ ls }

-- What `flush` pushes, in front of the hunks that come later.
abbrev pub flush : Pending → List Hunk → List Hunk
flush none later = later
flush (some h) later = h ∷ later

-- `table[i][j]`.
abbrev pub cell : List (List ℕ) → ℕ → ℕ → ℕ
cell table i j = get_or (get_or table i []) j 0

-- The loop: `bs` is `base` from `i` on, and `os` is `other` from `j` on.
unfoldable pub diff_loop : List (List ℕ) → ℕ → ℕ → Pending → List Line → List Line → List Hunk
diff_loop table i j p [] [] = flush p []
diff_loop table i j p [] (y ∷ ys) = flush (some (insert_lines (y ∷ ys) (open_at i p))) []
diff_loop table i j p (x ∷ xs) [] = flush (some (delete_lines (length (x ∷ xs)) (open_at i p))) []
diff_loop table i j p (x ∷ xs) (y ∷ ys) = elim (text_eq x y) [
  | true ↦ flush p (diff_loop table (suc i) (suc j) none xs ys)
  | false ↦ elim (leb (cell table i (suc j)) (cell table (suc i) j)) [
    | true ↦ diff_loop table (suc i) j (some (delete_lines 1 (open_at i p))) xs (y ∷ ys)
    | false ↦ diff_loop table i (suc j) (some (insert_lines (y ∷ []) (open_at i p))) (x ∷ xs) ys
  ]
]

unfoldable pub diff_lines : List Line → List Line → List Hunk
unfolding diff_loop lcs_lengths
diff_lines base other = diff_loop (lcs_lengths base other) 0 0 none base other

-- The end of a hunk's range, where an insertion counts as one line.
abbrev pub hunk_end : Hunk → ℕ
hunk_end h = h.start + max h.deleted 1

unfoldable pub overlaps : Hunk → Hunk → Bool
overlaps a b = ltb a.start (hunk_end b) && ltb b.start (hunk_end a)

abbrev pub conflict_of : Hunk → Hunk → MergeConflict
conflict_of mine yours = record {
  base_start = min mine.start yours.start;
  base_end = max (mine.start + mine.deleted) (yours.start + yours.deleted);
  ours = mine.inserted;
  theirs = yours.inserted;
}

unfoldable pub conflicts_with : Hunk → List Hunk → List MergeConflict
unfolding overlaps
conflicts_with mine [] = []
conflicts_with mine (yours ∷ rest) =
    let later = conflicts_with mine rest in
    if overlaps mine yours then conflict_of mine yours ∷ later else later

unfoldable pub conflicts_of : List Hunk → List Hunk → List MergeConflict
unfolding conflicts_with
conflicts_of [] theirs = []
conflicts_of (mine ∷ ours) theirs = conflicts_with mine theirs ++ conflicts_of ours theirs

-- `sort((x, y) => y.start - x.start)`: a stable sort, the last start first.
unfoldable pub insert_hunk : Hunk → List Hunk → List Hunk
insert_hunk h [] = h ∷ []
insert_hunk h (k ∷ ks) = if ltb h.start k.start then k ∷ insert_hunk h ks else h ∷ k ∷ ks

unfoldable pub sort_hunks : List Hunk → List Hunk
unfolding insert_hunk
sort_hunks [] = []
sort_hunks (h ∷ hs) = insert_hunk h (sort_hunks hs)

-- `merged.splice(start, deleted, ...inserted)`.
unfoldable pub splice : Hunk → List Line → List Line
splice h lines = take h.start lines ++ h.inserted ++ drop (h.start + h.deleted) lines

unfoldable pub splice_all : List Hunk → List Line → List Line
unfolding splice
splice_all [] lines = lines
splice_all (h ∷ hs) lines = splice_all hs (splice h lines)

-- The part of `merge3` after its early returns.
unfoldable pub merge_hunks : List Line → List Hunk → List Hunk → MergeResult
unfolding conflicts_of sort_hunks splice_all join_lines
merge_hunks base ours theirs = elim (conflicts_of ours theirs) [
  | [] ↦
      let every = sort_hunks (ours ++ theirs) in
      merged (join_lines (splice_all every base)) (length every)
  | c ∷ cs ↦ conflicted (c ∷ cs)
]

unfoldable pub merge3 : Text → Text → Text → MergeResult
unfolding merge_hunks split_lines diff_lines
merge3 base ours theirs =
    if text_eq ours theirs
    then merged ours 0
    else if text_eq base theirs
    then merged ours 1
    else if text_eq base ours
    then merged theirs 1
    else merge_hunks (split_lines base) (diff_lines (split_lines base) (split_lines ours))
        (diff_lines (split_lines base) (split_lines theirs))
