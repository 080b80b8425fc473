-- ===== src/Concord/Store/Resolve.antt =====
-- `resolve`: a person settles a conflict that a write has left.
use please_hire_me.Prelude.{
  ℕ, ◌+◌, Bool, false, not, ◌&&◌, Option, none, some, List, [], ◌∷◌, ◌++◌, if◌then◌else◌, ◌==◌,
  keep_if, find?, Text, text_eq, lookup, insert,
}
use please_hire_me.Concord.Merge.{MergeConflict, merged, conflicted, merge3}
use please_hire_me.Concord.Provenance.{ProvenanceUpdate, updated, violated}
use please_hire_me.Concord.Store.State.{
  Store, SharedDoc, PendingConflict, ConflictId, HistoryEntry, resolved_conflict, EventOutcome,
  emit, put_doc, base_key,
}
use please_hire_me.Concord.Store.Commit.{attribute_change, drawn_by}
use please_hire_me.Concord.Store.Write.{event}

pub data ResolveOutcome : Type 0 where
  settled : ℕ → Text → ResolveOutcome
  contested : ℕ → Text → List MergeConflict → ConflictId → ResolveOutcome
  -- Denied, with the human who may resolve the conflict.
  foreign : Option Text → ResolveOutcome
  not_found : ResolveOutcome

-- `item.id === conflictId`, on the two parts of an identifier.
abbrev pub same_conflict : ConflictId → PendingConflict → Bool
same_conflict id p = (p.id.seq == id.seq) && text_eq p.id.slug id.slug

abbrev pub is_owner : Option Text → Text → Bool
is_owner none human = false
is_owner (some owner) human = text_eq owner human

-- The map over the document's conflicts.
unfoldable pub replace_conflict :
    ConflictId → PendingConflict → List PendingConflict → List PendingConflict
replace_conflict id next [] = []
replace_conflict id next (p ∷ ps) =
    (if same_conflict id p then next else p) ∷ replace_conflict id next ps

module _ (uuid : ℕ → Text) (now : ℕ) (doc_id : Text) (id : ConflictId) (human chosen : Text) where
  -- The conflict against the text that has landed since.
  abbrev pub renewed : SharedDoc → PendingConflict → List MergeConflict → PendingConflict
  renewed doc p cs = record p {
    ours = chosen;
    theirs = doc.content;
    at_version = doc.version;
    at = now;
    conflicts = cs;
  }

  unfoldable pub keep_contested :
      SharedDoc → PendingConflict → List MergeConflict → Store → Store × ResolveOutcome
  unfolding replace_conflict
  keep_contested doc p cs st = (
    put_doc doc_id (record doc { conflicts = replace_conflict id (renewed doc p cs) doc.conflicts })
        st,
    contested doc.version doc.content cs id,
  )

  abbrev pub settled_doc : SharedDoc → Text → ProvenanceUpdate → ℕ → SharedDoc
  settled_doc doc next u drawn =
      let entry : HistoryEntry = record {
        version = doc.version + 1;
        agent_id = human;
        human_id = some human;
        at = now;
        message = some (resolved_conflict id);
        contribution_id = some (uuid drawn);
      } in
      record doc {
        content = next;
        version = doc.version + 1;
        updated_at = now;
        updated_by = some human;
        provenance = u.lines;
        history = doc.history ++ entry ∷ [];
        conflicts = keep_if (λ (p : PendingConflict). not (same_conflict id p)) doc.conflicts;
      }

  -- The lines that the person settled are attributed to the person, in an Agent's place.
  unfoldable pub settle :
      SharedDoc → PendingConflict → Text → Store → Option (Store × ResolveOutcome)
  unfolding attribute_change
  settle doc p next st = elim (attribute_change uuid now doc (some human) none next st.drawn) [
    | violated _ _ ↦ none
    | updated u ↦
        let put = put_doc doc_id (settled_doc doc next u st.drawn) st in
        some (
          emit
              (event doc_id human (some human) (EventOutcome.resolved id p.agent_id)
                (doc.version + 1))
              (record put {
                bases = insert (base_key doc_id p.agent_id) next put.bases;
                drawn = put.drawn + drawn_by doc next;
              }),
          settled (doc.version + 1) next,
        )
  ]

  unfoldable pub resolve_pending :
      Bool → SharedDoc → PendingConflict → Store → Option (Store × ResolveOutcome)
  unfolding settle keep_contested
  resolve_pending is_orchestrator doc p st =
      if not is_orchestrator && not (is_owner p.human_id human)
      then some (st, foreign p.human_id)
      else elim (merge3 p.theirs chosen doc.content) [
        | conflicted cs ↦ some (keep_contested doc p cs st)
        | merged next hunks ↦ settle doc p next st
      ]

  -- The document and the conflict, if both are there.
  abbrev pub find_pending : Store → Option (SharedDoc × PendingConflict)
  find_pending st = elim (lookup doc_id st.docs) [
    | none ↦ none
    | some doc ↦ elim (find? (same_conflict id) doc.conflicts) [
      | none ↦ none
      | some p ↦ some (doc, p)
    ]
  ]

  -- `none` is the exception that the attribution may raise.
  unfoldable pub resolve : Bool → Store → Option (Store × ResolveOutcome)
  unfolding resolve_pending
  resolve is_orchestrator st = elim (find_pending st) [
    | none ↦ some (st, not_found)
    | some (doc, p) ↦ resolve_pending is_orchestrator doc p st
  ]
