-- ===== src/Concord/Sections.antt =====
-- apps/server/src/concord/sections.ts: section ownership, checked on the diff of a write.
pub mod Bounds
pub mod Ranges
pub mod Allocation
use please_hire_me.Prelude.{
  ℕ, zero, suc, ◌+◌, ◌-◌, Bool, true, false, ◌&&◌, ◌||◌, Option, none, some, List, [], ◌∷◌, ◌++◌,
  map, if◌then◌else◌, ltb, leb, ◌==◌, length, get_or, drop, Text, text_eq, trim, is_space, Assoc,
  lookup, insert, remove,
}
use please_hire_me.Concord.Merge.{Line, Hunk, split_lines, diff_lines}

pub record SectionAllocation : Type 0 where
  pub doc_id : Text
  pub agent_id : Text
  pub heading : Text

-- 1-based and inclusive.
pub record SectionRange : Type 0 where
  pub start_line : ℕ
  pub end_line : ℕ

-- The number of `#` that a line begins with.
unfoldable pub hashes : Line → ℕ
hashes [] = 0
hashes (c ∷ s) = if c == b'#' then suc (hashes s) else 0

unfoldable pub starts_with_space : Line → Bool
unfolding is_space
starts_with_space [] = false
starts_with_space (c ∷ s) = is_space c

-- The level that `/^(#{1,6})\s/` finds: one to six `#`, and then white space.
unfoldable pub heading_level : Line → ℕ
unfolding hashes starts_with_space
heading_level line =
    let n = hashes line in if leb 1 n && leb n 6 && starts_with_space (drop n line) then n else 0

-- `lines.findIndex((line) => line.trim() === wanted)`, counted from `i`.
unfoldable pub find_heading : Text → ℕ → List Line → Option ℕ
find_heading wanted i [] = none
find_heading wanted i (x ∷ xs) =
    if text_eq (trim x) wanted then some i else find_heading wanted (suc i) xs

-- Whether a line of level `candidate` closes a section of level `level`.
abbrev pub closes : ℕ → ℕ → Bool
closes level candidate = ltb 0 candidate && ((level == 0) || leb candidate level)

-- The loop over the lines behind the heading: `i` is the index of the first of them.
unfoldable pub section_end : ℕ → ℕ → List Line → ℕ
section_end level i [] = i
section_end level i (x ∷ xs) =
    if closes level (heading_level x) then i else section_end level (suc i) xs

abbrev pub range_at : List Line → ℕ → SectionRange
range_at lines index = record {
  start_line = index + 1;
  end_line =
      section_end (heading_level (get_or lines index [])) (index + 1) (drop (index + 1) lines);
}

unfoldable pub locate_section : Text → Text → Option SectionRange
locate_section content heading = elim (find_heading (trim heading) 0 (split_lines content)) [
  | none ↦ none
  | some index ↦ some (range_at (split_lines content) index)
]

-- The message of a violation, with the numbers that it names.
pub data BoundsReason : Type 0 where
  changes : ℕ → ℕ → SectionRange → BoundsReason
  inserts : ℕ → SectionRange → BoundsReason

pub record BoundsViolation : Type 0 where
  pub line : ℕ
  pub reason : BoundsReason

-- One round of the loop: what is wrong with a hunk, if anything.
unfoldable pub hunk_violation : SectionRange → Hunk → Option BoundsViolation
hunk_violation range h =
    let first = h.start + 1 in
    let last = if ltb 0 h.deleted then h.start + h.deleted else first in
    if ltb 0 h.deleted
    then (if ltb first range.start_line || ltb range.end_line last
        then some (record { line = first; reason = changes first last range })
        else none)
    else if ltb first range.start_line || ltb (range.end_line + 1) first
    then some (record { line = first; reason = inserts first range })
    else none

unfoldable pub first_violation : SectionRange → List Hunk → Option BoundsViolation
unfolding hunk_violation
first_violation range [] = none
first_violation range (h ∷ hs) = elim (hunk_violation range h) [
  | none ↦ first_violation range hs
  | some v ↦ some v
]

unfoldable pub find_out_of_bounds : Text → Text → SectionRange → Option BoundsViolation
unfolding first_violation
find_out_of_bounds previous next range =
    first_violation range (diff_lines (split_lines previous) (split_lines next))

-- `SectionRegistry`: `byDoc`, a map from documents to maps from Agents to headings.
abbrev pub SectionRegistry : Type 0
SectionRegistry = Assoc (Assoc Text)

abbrev pub on_doc : Text → SectionRegistry → Assoc Text
on_doc doc_id r = elim (lookup doc_id r) [ none ↦ [] | some m ↦ m ]

unfoldable pub allocate : Text → Text → Text → SectionRegistry → SectionRegistry
allocate doc_id agent_id heading r =
    insert doc_id (insert agent_id (trim heading) (on_doc doc_id r)) r

unfoldable pub is_allocated : Text → SectionRegistry → Bool
is_allocated doc_id r = ltb 0 (length (on_doc doc_id r))

unfoldable pub heading_for : Text → Text → SectionRegistry → Option Text
heading_for doc_id agent_id r = elim (lookup doc_id r) [ none ↦ none | some m ↦ lookup agent_id m ]

allocations : Text → Assoc Text → List SectionAllocation
allocations doc_id [] = []
allocations doc_id ((agent, heading) ∷ m) =
    record { doc_id = doc_id; agent_id = agent; heading = heading } ∷ allocations doc_id m

unfoldable pub list_for : Text → SectionRegistry → List SectionAllocation
unfolding allocations
list_for doc_id r = allocations doc_id (on_doc doc_id r)

unfoldable pub all_allocations : SectionRegistry → List SectionAllocation
unfolding allocations
all_allocations [] = []
all_allocations ((doc_id, m) ∷ r) = allocations doc_id m ++ all_allocations r

unfoldable pub release : Text → SectionRegistry → SectionRegistry
release doc_id r = remove doc_id r

unfoldable pub restore : List SectionAllocation → SectionRegistry → SectionRegistry
unfolding allocate
restore [] r = r
restore (entry ∷ entries) r = restore entries (allocate entry.doc_id entry.agent_id entry.heading r)
