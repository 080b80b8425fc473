-- ===== src/Concord/Store/Commit.antt =====
-- Committing an accepted text: the closures of `write`.
use please_hire_me.Prelude.{
  ℕ, suc, ◌+◌, true, not, Option, none, some, List, [], ◌∷◌, ◌++◌, if◌then◌else◌, ltb, length,
  truthy, Text, insert,
}
use please_hire_me.Concord.Merge.{split_lines}
use please_hire_me.Concord.Sections.{is_allocated, heading_for, locate_section, find_out_of_bounds}
use please_hire_me.Concord.Provenance.{
  LineProvenance, ProvenanceUpdate, ProvenanceResult, updated, violated, Caret, seed_provenance,
  reconcile_provenance,
}
use please_hire_me.Concord.Store.State.{
  Store, SharedDoc, AgentContribution, ContributionOutcome, HistoryEntry, HistoryMessage, said,
  Summary, Breach, not_allocated, section_missing, outside, put_doc, base_key, mark,
}
use please_hire_me.Concord.Store.Messages.{bounded_message}

pub record WriteOptions : Type 0 where
  pub message : Option Text
  pub run_id : Option Text

pub record Committed : Type 0 where
  pub version : ℕ
  pub content : Text
  pub contribution_id : Text

abbrev pub bounded : Option Text → Option Text
bounded none = none
bounded (some m) = some (bounded_message m)

abbrev pub history_message : Option Text → Option HistoryMessage
history_message none = none
history_message (some m) = some (said (bounded_message m))

abbrev pub summarise_contribution : Option Text → ℕ → Summary
summarise_contribution message changed = record {
  message = bounded (truthy message);
  changed_lines = changed;
}

-- The check of section ownership on the text that would land.
unfoldable pub out_of_bounds : Store → SharedDoc → Text → Text → Text → Option Breach
out_of_bounds st doc doc_id agent_id next =
    if not (is_allocated doc_id st.sections)
    then none
    else elim (heading_for doc_id agent_id st.sections) [
      | none ↦ some not_allocated
      | some heading ↦ elim (locate_section doc.content heading) [
        | none ↦ some (section_missing heading)
        | some range ↦ elim (find_out_of_bounds doc.content next range) [
          | none ↦ none
          | some violation ↦ some (outside heading range violation.reason)
        ]
      ]
    ]

-- The entries to align against: those of the document, or new ones if it has none.
abbrev pub previous_entries : (ℕ → Text) → ℕ → SharedDoc → ℕ → List LineProvenance
previous_entries uuid now doc drawn =
    if ltb 0 (length doc.provenance)
    then doc.provenance
    else seed_provenance uuid drawn doc.content doc.version now

abbrev pub drawn_by : SharedDoc → Text → ℕ
drawn_by doc next = suc (length (split_lines doc.content) + length (split_lines next))

-- Attribution of a change by `agent`, or by hand where `human` is given.
unfoldable pub attribute_change :
    (ℕ → Text) → ℕ → SharedDoc → Option Text → Option Text → Text → ℕ → ProvenanceResult
attribute_change uuid now doc agent human next drawn =
    reconcile_provenance uuid
      (record {
        previous = previous_entries uuid now doc (suc drawn);
        previous_content = doc.content;
        next_content = next;
        agent_id = agent;
        human_id = human;
        contribution_id = uuid drawn;
        version = doc.version + 1;
        at = now;
      })
      (suc (drawn + length (split_lines doc.content)))

-- The document after an accepted change.
abbrev pub changed_doc :
    ℕ → SharedDoc → Text → Text → ProvenanceUpdate → AgentContribution → HistoryEntry → SharedDoc
changed_doc now doc actor next u c h = record doc {
  content = next;
  version = doc.version + 1;
  updated_at = now;
  updated_by = some actor;
  provenance = u.lines;
  contributions = doc.contributions ++ c ∷ [];
  history = doc.history ++ h ∷ [];
}

abbrev pub mark_caret : ℕ → Text → Text → Option Text → ℕ → Option Caret → Store → Store
mark_caret now doc_id agent human version none st = st
mark_caret now doc_id agent human version (some c) st =
    mark now doc_id agent human true
      (some (record { line = c.line; column = c.column; at_version = version })) st

-- `commit`; `none` is the exception of the attribution.
unfoldable pub commit :
    (ℕ → Text)
    → ℕ
    → Text
    → Text
    → Option Text
    → WriteOptions
    → SharedDoc
    → Text
    → ContributionOutcome
    → Store
    → Option (Store × Committed)
unfolding attribute_change
commit uuid now doc_id agent human options doc next outcome st =
    elim (attribute_change uuid now doc (some agent) none next st.drawn) [
      | violated _ _ ↦ none
      | updated u ↦
          let contribution : AgentContribution = record {
            id = uuid st.drawn;
            document_id = doc_id;
            agent_id = some agent;
            human_id = human;
            run_id = options.run_id;
            base_version = doc.version;
            resulting_version = doc.version + 1;
            outcome = outcome;
            changed_line_ids = u.changed_line_ids;
            summary = summarise_contribution options.message (length u.changed_line_ids);
            created_at = now;
            caret = u.caret;
          } in
          let entry : HistoryEntry = record {
            version = doc.version + 1;
            agent_id = agent;
            human_id = human;
            at = now;
            message = history_message (truthy options.message);
            contribution_id = some (uuid st.drawn);
          } in
          let doc' = changed_doc now doc agent next u contribution entry in
          let marked =
            mark_caret now doc_id agent human doc'.version u.caret (put_doc doc_id doc' st) in
          some (
            record marked {
              bases = insert (base_key doc_id agent) next marked.bases;
              drawn = marked.drawn + drawn_by doc next;
            },
            record { version = doc'.version; content = next; contribution_id = uuid st.drawn },
          )
    ]
