-- ===== src/Concord/Store/KeepBoth.antt =====
-- `keepBoth`: the committed text with the losing edits inserted behind the lines that won.
use please_hire_me.Prelude.{
  ℕ, suc, ◌+◌, Bool, true, false, ◌&&◌, Option, none, some, List, [], ◌∷◌, ◌++◌, if◌then◌else◌,
  ◌==◌, length, Text, text_eq,
}
use please_hire_me.Concord.Merge.{Line, MergeConflict, split_lines, join_lines}

-- `needle.every((line, offset) => haystack[index + offset] === line)`, at one index.
unfoldable pub begins_with : List Line → List Line → Bool
begins_with [] hay = true
begins_with (x ∷ xs) [] = false
begins_with (x ∷ xs) (y ∷ ys) = text_eq y x && begins_with xs ys

-- The loop: `hay` is the haystack from `i` on, and a match that would run past it is none.
unfoldable pub find_run_from : ℕ → List Line → List Line → Option ℕ
unfolding begins_with
find_run_from i needle [] = none
find_run_from i needle (y ∷ ys) =
    if begins_with needle (y ∷ ys) then some i else find_run_from (suc i) needle ys

unfoldable pub find_run : List Line → List Line → Option ℕ
unfolding find_run_from
find_run haystack [] = none
find_run haystack (x ∷ xs) = find_run_from 0 (x ∷ xs) haystack

abbrev pub anchor_of : List Line → MergeConflict → ℕ
anchor_of lines range = elim (find_run lines range.theirs) [
  | none ↦ length lines
  | some at ↦ at + length range.theirs
]

-- `additions`, a map from indices to lines.
abbrev pub Additions : Type 0
Additions = List (ℕ × List Line)

-- `additions.get(index) ?? []`.
unfoldable pub added_at : ℕ → Additions → List Line
added_at index [] = []
added_at index ((k, lines) ∷ m) = if k == index then lines else added_at index m

-- `additions.set(anchor, [...(additions.get(anchor) ?? []), ...ours])`.
unfoldable pub add_at : ℕ → List Line → Additions → Additions
add_at anchor ours [] = (anchor, ours) ∷ []
add_at anchor ours ((k, lines) ∷ m) =
    if k == anchor then (k, lines ++ ours) ∷ m else (k, lines) ∷ add_at anchor ours m

unfoldable pub collect : List Line → List MergeConflict → Additions → Additions
unfolding find_run add_at
collect lines [] m = m
collect lines (range ∷ ranges) m =
    collect lines ranges (add_at (anchor_of lines range) range.ours m)

-- The loop that writes the result: `rest` is `lines` from `index` on.
unfoldable pub interleave : Additions → ℕ → List Line → List Line
unfolding added_at
interleave m index [] = added_at index m
interleave m index (x ∷ rest) = added_at index m ++ x ∷ interleave m (suc index) rest

abbrev pub lines_of : Text → List Line
lines_of [] = []
lines_of (c ∷ text) = split_lines (c ∷ text)

unfoldable pub keep_both : Text → List MergeConflict → Text
unfolding collect interleave
keep_both theirs conflicts =
    join_lines (interleave (collect (lines_of theirs) conflicts []) 0 (lines_of theirs))
