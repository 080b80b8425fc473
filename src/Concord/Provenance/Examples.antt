-- ===== src/Concord/Provenance/Examples.antt =====
-- Attribution of a small change.
use please_hire_me.Prelude.{
  ℕ, suc, ◌+◌, ◌≡◌, ◌↔◌, refl, inl, inr, true, false, Option, none, some, List, [], ◌∷◌, arith, In,
  length, Text, codes,
}
use please_hire_me.Concord.Merge.{split_lines}
use please_hire_me.Concord.Provenance.{
  LineProvenance, ProvenanceInput, ProvenanceUpdate, ProvenanceResult, updated,
  reconcile_provenance, responsible_agents,
}
use please_hire_me.Concord.Provenance.Alignment.{reconcile_provenance-total}

abbrev draw : ℕ → Text
draw n = b'u' ∷ n ∷ []

abbrev by_ada : Text → LineProvenance
by_ada id = record {
  line_id = id;
  last_modified_by_agent_id = some (codes "ada");
  last_modified_by_human_id = none;
  contribution_id = some (codes "k1");
  resulting_document_version = 1;
  updated_at = 10;
}

abbrev by_ben : LineProvenance
by_ben = record {
  line_id = draw 7;
  last_modified_by_agent_id = some (codes "ben");
  last_modified_by_human_id = none;
  contribution_id = some (codes "k2");
  resulting_document_version = 2;
  updated_at = 20;
}

abbrev change : ProvenanceInput
change = record {
  previous = by_ada (codes "a") ∷ by_ada (codes "b") ∷ [];
  previous_content = codes "one\ntwo";
  next_content = codes "one\nTWO";
  agent_id = some (codes "ben");
  human_id = none;
  contribution_id = codes "k2";
  version = 2;
  at = 20;
}

abbrev update : ProvenanceUpdate
update = record {
  lines = by_ada (codes "a") ∷ by_ben ∷ [];
  changed_line_ids = draw 7 ∷ [];
  caret = some (record { line = 2; column = 4 });
}

update_run : reconcile_provenance draw change 7 ≡ updated update
unfolding reconcile_provenance please_hire_me.Concord.Merge.diff_lines split_lines
    please_hire_me.Prelude.split_on please_hire_me.Prelude.text_eq
    please_hire_me.Concord.Provenance.end_column_of
update_run = refl

as_many : length change.previous ≡ length (split_lines change.previous_content)
unfolding split_lines please_hire_me.Prelude.split_on
as_many = refl

reconcile_provenance-total_example :
    (u : ProvenanceUpdate) × (reconcile_provenance draw change 7 ≡ updated u)
    × (length u.lines ≡ length (split_lines (codes "one\nTWO")))
reconcile_provenance-total_example = reconcile_provenance-total draw change 7
