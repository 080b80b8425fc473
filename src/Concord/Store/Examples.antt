-- ===== src/Concord/Store/Examples.antt =====
-- Writes by two Agents and a person to a small document.
use please_hire_me.Prelude.{
  ℕ, suc, ◌+◌, ◌-◌, ◌≡◌, ◌≢◌, ◌⊎◌, ◌≤◌, refl, inl, inr, Bool, true, false, Option, none, some, List,
  [], ◌∷◌, ◌++◌, arith, or_else, In, length, take, drop, Text, codes, lookup,
}
use please_hire_me.Concord.Merge.{Line, Hunk, split_lines, join_lines, diff_lines}
use please_hire_me.Concord.Merge.Applied.{Applies}
use please_hire_me.Concord.Sections.{
  SectionRange, SectionRegistry, is_allocated, heading_for, locate_section,
}
use please_hire_me.Concord.Store.State.{Store, SharedDoc, AuthzCheck, base_key}
use please_hire_me.Concord.Store.Commit.{WriteOptions, Committed}
use please_hire_me.Concord.Store.Write.{
  WriteOutcome, written, merged_in, denied, entered, entry_store, write,
}
use please_hire_me.Concord.Store.Effects.{write_effect}
use please_hire_me.Concord.Store.Promises.{Landed, Promised}
use please_hire_me.Concord.Store.Edits.{write-Applies, write-stays_in_section}

abbrev draw : ℕ → Text
draw n = b'u' ∷ n ∷ []

abbrev doc : Text
doc = codes "doc"

abbrev ada : Text
ada = codes "ada"

-- Everything is allowed.
abbrev open_policy : AuthzCheck
open_policy agent action resource = record {
  allowed = true;
  rule_id = codes "WB-0";
  reason = codes "open";
  human_id = none;
}

abbrev plain : WriteOptions
plain = record { message = none; run_id = none }

abbrev document : Text → SharedDoc
document content = record {
  id = doc;
  version = 1;
  content = content;
  updated_at = 10;
  updated_by = some (codes "ben");
  lease = none;
  history = [];
  conflicts = [];
  provenance = [];
  contributions = [];
}

-- A document that has moved on since Ada read `base`.
abbrev store_with : SectionRegistry → Text → Text → Store
store_with sections base content = record {
  docs = (doc, document content) ∷ [];
  bases = (base_key doc ada, base) ∷ [];
  presence = [];
  conflict_seq = 0;
  sections = sections;
  events = [];
  drawn = 0;
}

abbrev moved : Store
moved = store_with [] (codes "a\nb\nc") (codes "a\nb\nC")

abbrev write_of_ada : ℕ → Text → Store → Option (Store × WriteOutcome)
write_of_ada expected content st = write draw open_policy 20 doc ada expected content plain st

abbrev store_after : Option (Store × WriteOutcome) → Store
store_after none = moved
store_after (some (st, out)) = st

abbrev nothing : Committed
nothing = record { version = 0; content = []; contribution_id = [] }

abbrev commit_of : WriteOutcome → Committed
commit_of (written c) = c
commit_of (merged_in c hunks) = c
commit_of _ = nothing

abbrev commit_after : Option (Store × WriteOutcome) → Committed
commit_after none = nothing
commit_after (some (st, out)) = commit_of out

abbrev our_hunk : Hunk
our_hunk = record { start = 0; deleted = 1; inserted = codes "A" ∷ [] }

merge_run :
    write_of_ada 0 (codes "A\nb\nc") moved
    ≡ some (
      store_after (write_of_ada 0 (codes "A\nb\nc") moved),
      merged_in (commit_after (write_of_ada 0 (codes "A\nb\nc") moved)) 2,
    )
unfolding write lookup please_hire_me.Prelude.text_eq please_hire_me.Concord.Merge.merge3
    please_hire_me.Prelude.split_on please_hire_me.Concord.Store.Commit.out_of_bounds is_allocated
    please_hire_me.Concord.Provenance.reconcile_provenance please_hire_me.Prelude.join_with
merge_run = refl

merge_content : (commit_after (write_of_ada 0 (codes "A\nb\nc") moved)).content ≡ codes "A\nb\nC"
unfolding write lookup please_hire_me.Prelude.text_eq please_hire_me.Concord.Merge.merge3
    please_hire_me.Prelude.split_on please_hire_me.Concord.Store.Commit.out_of_bounds is_allocated
    please_hire_me.Concord.Provenance.reconcile_provenance please_hire_me.Prelude.join_with
merge_content = refl

our_hunk-In : In our_hunk (
    diff_lines
      (split_lines (or_else (lookup (base_key doc ada) moved.bases) []))
      (split_lines (codes "A\nb\nc")))
unfolding diff_lines split_lines lookup please_hire_me.Prelude.text_eq
    please_hire_me.Prelude.split_on
our_hunk-In = inl refl

write_effect_example :
    ((true ≡ false)
      × ((st' : Store) × (write_of_ada 0 (codes "A\nb\nc") moved
            ≡ some (st', denied (codes "WB-0") (codes "open")))
          × (st'.docs ≡ moved.docs)))
    ⊎ ((true ≡ true)
        × Promised doc ada
            (entered 20 doc moved)
            (entry_store 20 doc ada none moved)
            0
            (codes "A\nb\nc")
            (or_else (lookup (base_key doc ada) moved.bases) [])
            (write_of_ada 0 (codes "A\nb\nc") moved))
write_effect_example = write_effect draw open_policy 20 doc ada 0 (codes "A\nb\nc") plain moved

write-Applies_example :
    Landed doc
      (entered 20 doc moved)
      (commit_after (write_of_ada 0 (codes "A\nb\nc") moved)).content
      (store_after (write_of_ada 0 (codes "A\nb\nc") moved))
    × Applies
        (split_lines (or_else (lookup (base_key doc ada) moved.bases) []))
        (diff_lines
          (split_lines (or_else (lookup (base_key doc ada) moved.bases) []))
          (split_lines (codes "A\nb\nc")))
        (diff_lines
          (split_lines (or_else (lookup (base_key doc ada) moved.bases) []))
          (split_lines (entered 20 doc moved).content))
        (commit_after (write_of_ada 0 (codes "A\nb\nc") moved)).content
write-Applies_example =
    write-Applies draw open_policy 20 doc ada 0 (codes "A\nb\nc") plain moved
      (store_after (write_of_ada 0 (codes "A\nb\nc") moved))
      (commit_after (write_of_ada 0 (codes "A\nb\nc") moved)) 2 merge_run

abbrev sectioned : Store
sectioned = store_with ((doc, (ada, codes "# A") ∷ []) ∷ []) [] (codes "# A\nx\n# B\ny")

abbrev own_section : Text
own_section = codes "# A\nX\n# B\ny"

section_run :
    write_of_ada 1 own_section sectioned
    ≡ some (
      store_after (write_of_ada 1 own_section sectioned),
      written (commit_after (write_of_ada 1 own_section sectioned)),
    )
unfolding write lookup please_hire_me.Prelude.text_eq
    please_hire_me.Concord.Store.Commit.out_of_bounds is_allocated heading_for locate_section
    please_hire_me.Concord.Sections.find_heading split_lines please_hire_me.Prelude.split_on
    please_hire_me.Prelude.trim please_hire_me.Concord.Sections.find_out_of_bounds diff_lines
    please_hire_me.Concord.Sections.section_end please_hire_me.Concord.Sections.heading_level
    please_hire_me.Concord.Provenance.reconcile_provenance
section_run = refl

sectioned_allocated : is_allocated doc sectioned.sections ≡ true
unfolding is_allocated lookup please_hire_me.Prelude.text_eq
sectioned_allocated = refl

write-stays_in_section_example :
    (heading : Text) × (range : SectionRange) × (mid : List Line) × (heading_for doc ada
        sectioned.sections
      ≡ some heading)
    × (locate_section (entered 20 doc sectioned).content heading ≡ some range)
    × (split_lines (commit_after (write_of_ada 1 own_section sectioned)).content
        ≡ take (range.start_line - 1) (split_lines (entered 20 doc sectioned).content)
          ++ (mid ++ drop range.end_line (split_lines (entered 20 doc sectioned).content)))
write-stays_in_section_example =
    write-stays_in_section draw open_policy 20 doc ada 1 own_section plain sectioned
      (store_after (write_of_ada 1 own_section sectioned))
      (commit_after (write_of_ada 1 own_section sectioned))
      (written (commit_after (write_of_ada 1 own_section sectioned))) section_run (inl refl)
      sectioned_allocated
