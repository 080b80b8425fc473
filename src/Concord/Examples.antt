-- ===== src/Concord/Examples.antt =====
-- Runs of merging, sections and provenance on small inputs.
use please_hire_me.Prelude.{
  ℕ, zero, suc, ◌+◌, ◌-◌, ◌≤◌, ◌<◌, ◌≡◌, ◌≢◌, ◌⊎◌, ◌↔◌, refl, sym, ap, inl, inr, Bool, true, false,
  Option, none, some, List, [], ◌∷◌, ◌++◌, arith, In, All, length, take, drop, Text, codes, lookup,
  if◌then◌else◌, or_else, text_eq, ◌&&◌, trim, get_or,
}
use please_hire_me.Concord.Merge.{
  MergeConflict, Line, Hunk, merged, conflicted, merge3, split_lines, join_lines, diff_lines,
  conflict_of,
}
use please_hire_me.Concord.Merge.Patch.{patch}
use please_hire_me.Concord.Merge.Diff.{patch-diff_lines}
use please_hire_me.Concord.Merge.Converge.{merge3-Keeps, Keeps}
use please_hire_me.Concord.Merge.Clashes.{merge3-conflicted, IsClash}
use please_hire_me.Concord.Merge.Commute.{merge3_comm}
use please_hire_me.Concord.Sections.{
  SectionRange, SectionRegistry, locate_section, find_out_of_bounds, heading_level, closes,
  allocate, release, heading_for,
}

abbrev base_text : Text
base_text = codes "a\nb\nc"

abbrev our_text : Text
our_text = codes "A\nb\nc"

abbrev their_text : Text
their_text = codes "a\nb\nC"

abbrev both_text : Text
both_text = codes "A\nb\nC"

abbrev rival_text : Text
rival_text = codes "x\nb\nc"

abbrev base_lines : List Line
base_lines = codes "a" ∷ codes "b" ∷ codes "c" ∷ []

abbrev our_lines : List Line
our_lines = codes "A" ∷ codes "b" ∷ codes "c" ∷ []

abbrev our_hunk : Hunk
our_hunk = record { start = 0; deleted = 1; inserted = codes "A" ∷ [] }

abbrev rival_hunk : Hunk
rival_hunk = record { start = 0; deleted = 1; inserted = codes "x" ∷ [] }

merged_run : merge3 base_text our_text their_text ≡ merged both_text 2
unfolding merge3 please_hire_me.Prelude.text_eq please_hire_me.Prelude.split_on
    please_hire_me.Prelude.join_with
merged_run = refl

conflict_run :
    merge3 base_text our_text rival_text ≡ conflicted (conflict_of our_hunk rival_hunk ∷ [])
unfolding merge3 please_hire_me.Prelude.text_eq please_hire_me.Prelude.split_on
    please_hire_me.Prelude.join_with
conflict_run = refl

patch-diff_lines_example : patch 0 (diff_lines base_lines our_lines) base_lines ≡ our_lines
patch-diff_lines_example = patch-diff_lines base_lines our_lines

our_hunk-In : In our_hunk (diff_lines (split_lines base_text) (split_lines our_text))
unfolding diff_lines please_hire_me.Prelude.text_eq please_hire_me.Prelude.split_on split_lines
our_hunk-In = inl refl

merge3-Keeps_example : (lines : List Line) × (both_text ≡ join_lines lines) × Keeps our_hunk lines
merge3-Keeps_example =
    merge3-Keeps base_text our_text their_text both_text 2 our_hunk merged_run (inl our_hunk-In)

merge3-conflicted_example :
    (conflict_of our_hunk rival_hunk ∷ [] ≢ [])
    × ((c : MergeConflict)
        → In c (conflict_of our_hunk rival_hunk ∷ [])
          ↔ IsClash
              (diff_lines (split_lines base_text) (split_lines our_text))
              (diff_lines (split_lines base_text) (split_lines rival_text))
              c)
merge3-conflicted_example =
    merge3-conflicted base_text our_text rival_text (conflict_of our_hunk rival_hunk ∷ [])
      conflict_run

merge3_comm_example : merge3 base_text their_text our_text ≡ merged both_text 2
merge3_comm_example = merge3_comm base_text our_text their_text both_text 2 merged_run

abbrev paper : Text
paper = codes "# A\none\n# B\ntwo"

abbrev range_a : SectionRange
range_a = record { start_line = 1; end_line = 2 }

abbrev range_b : SectionRange
range_b = record { start_line = 3; end_line = 4 }

abbrev paper_after : Text
paper_after = codes "# A\nONE\n# B\ntwo"

located_a : locate_section paper (codes "# A") ≡ some range_a
unfolding locate_section please_hire_me.Concord.Sections.find_heading split_lines
    please_hire_me.Prelude.split_on text_eq trim please_hire_me.Concord.Sections.section_end
    heading_level
located_a = refl

located_b : locate_section paper (codes "# B ") ≡ some range_b
unfolding locate_section please_hire_me.Concord.Sections.find_heading split_lines
    please_hire_me.Prelude.split_on text_eq trim please_hire_me.Concord.Sections.section_end
    heading_level
located_b = refl

in_bounds_a : find_out_of_bounds paper paper_after range_a ≡ none
unfolding find_out_of_bounds diff_lines split_lines please_hire_me.Prelude.split_on text_eq
in_bounds_a = refl

closes_b :
    closes
      (heading_level (get_or (split_lines paper) 0 []))
      (heading_level (get_or (split_lines paper) 2 []))
    ≡ true
unfolding heading_level split_lines please_hire_me.Prelude.split_on
closes_b = refl
