-- ===== src/Concord/Store/Promises.antt =====
-- What the operations promise of the store that they leave: the effect of a write by its outcome.
use please_hire_me.Prelude.{ℕ, ◌+◌, ◌≡◌, ◌≢◌, ◌⊎◌, Option, none, some, In, length, Text, lookup}
use please_hire_me.Concord.Merge.{merged, conflicted, merge3, split_lines}
use please_hire_me.Concord.Store.State.{
  Store, SharedDoc, Lease, PendingConflict, ConflictId, held_by_other,
}
use please_hire_me.Concord.Store.Commit.{out_of_bounds}
use please_hire_me.Concord.Store.Write.{
  WriteOutcome, written, merged_in, conflict, denied, out_of_section, leased,
}

-- One entry of provenance for each line.
abbrev pub OneEach : SharedDoc → Type 0
OneEach doc = length doc.provenance ≡ length (split_lines doc.content)

-- The store holds the document with a new text, one version on.
abbrev pub Landed : Text → SharedDoc → Text → Store → Type 0
Landed doc_id doc next st' =
    (doc' : SharedDoc) × (lookup doc_id st'.docs ≡ some doc')
    × (doc'.content ≡ next)
    × (doc'.version ≡ doc.version + 1)
    × OneEach doc'

-- The store holds the document with the text and the version that it had.
abbrev pub Kept : Text → SharedDoc → Store → Type 0
Kept doc_id doc st' =
    (doc' : SharedDoc) × (lookup doc_id st'.docs ≡ some doc')
    × (doc'.content ≡ doc.content)
    × (doc'.version ≡ doc.version)

-- The refused text and the text that it was refused for are in the document's open conflicts.
abbrev pub KeptConflict : Text → Text → SharedDoc → Text → ConflictId → Store → Type 0
KeptConflict doc_id agent doc content id st' =
    (doc' : SharedDoc) × (p : PendingConflict) × (lookup doc_id st'.docs ≡ some doc')
    × In p doc'.conflicts
    × (p.id ≡ id)
    × (p.agent_id ≡ agent)
    × (p.ours ≡ content)
    × (p.theirs ≡ doc.content)

module _ (doc_id agent : Text) (doc : SharedDoc) where
  -- The text that a write would land: its own at the document's version, else the merged one.
  abbrev pub WouldLand : ℕ → Text → Text → Text → Type 0
  WouldLand expected content base next =
      ((expected ≡ doc.version) × (next ≡ content))
      ⊎ ((expected ≢ doc.version)
          × ((hunks : ℕ) × (merge3 base content doc.content ≡ merged next hunks)))

  -- What a write promises, by its outcome, to a document that stands in the store `st`.
  abbrev pub Effect : Store → ℕ → Text → Text → Store → WriteOutcome → Type 0
  Effect st expected content base st' (written c) =
      (held_by_other agent doc.lease ≡ none)
      × (expected ≡ doc.version)
      × (c.content ≡ content)
      × (out_of_bounds st doc doc_id agent content ≡ none)
      × Landed doc_id doc content st'
  Effect st expected content base st' (merged_in c hunks) =
      (held_by_other agent doc.lease ≡ none)
      × (expected ≢ doc.version)
      × (merge3 base content doc.content ≡ merged c.content hunks)
      × (out_of_bounds st doc doc_id agent c.content ≡ none)
      × Landed doc_id doc c.content st'
  Effect st expected content base st' (conflict version text cs id) =
      (held_by_other agent doc.lease ≡ none)
      × (expected ≢ doc.version)
      × (merge3 base content doc.content ≡ conflicted cs)
      × (version ≡ doc.version)
      × (text ≡ doc.content)
      × Kept doc_id doc st'
      × KeptConflict doc_id agent doc content id st'
  Effect st expected content base st' (denied rule reason) = ⊥
  Effect st expected content base st' (out_of_section breach) =
      (held_by_other agent doc.lease ≡ none)
      × (next : Text) × WouldLand expected content base next
      × (out_of_bounds st doc doc_id agent next ≡ some breach)
      × (st'.docs ≡ st.docs)
  Effect st expected content base st' (leased holder ends) =
      (l : Lease) × (held_by_other agent doc.lease ≡ some l)
      × (holder ≡ l.holder)
      × (ends ≡ l.expires_at)
      × (st'.docs ≡ st.docs)

  abbrev pub Promised : Store → ℕ → Text → Text → Option (Store × WriteOutcome) → Type 0
  Promised st expected content base r =
      (st' : Store) × (out : WriteOutcome) × (r ≡ some (st', out))
      × Effect st expected content base st' out
