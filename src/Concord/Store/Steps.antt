-- ===== src/Concord/Store/Steps.antt =====
-- Every operation keeps a store sound.
use please_hire_me.Prelude.{
  ℕ, suc, ◌+◌, refl, inl, inr, Option, none, some, List, [], Bool-cases, Option-cases, or_else,
  Text, lookup, ◌==◌,
}
use please_hire_me.Concord.Merge.{MergeConflict, merge3}
use please_hire_me.Concord.Provenance.{Caret}
use please_hire_me.Concord.Store.State.{
  Store, SharedDoc, ContributionOutcome, mark, base_key, held_by_other,
}
use please_hire_me.Concord.Store.Commit.{WriteOptions, out_of_bounds, commit, mark_caret}
use please_hire_me.Concord.Store.Write.{
  WriteOutcome, write_doc, rebase, keep_conflict, guard_section, land_written, land_merged, pending,
}
use please_hire_me.Concord.Store.Effects.{attribute_change-total, result-cases}
use please_hire_me.Concord.Store.Runs.{after, SoundDoc, Sound}
use please_hire_me.Concord.Store.Soundness.{supersede-Pairwise, insert-SoundDocs, SoundDocs-suc}

-- What an operation that may raise an exception leaves.
abbrev pub Left : {A : Type 0} → Option (Store × A) → Type 0
Left none = Unit {0}
Left (some (st, out)) = Sound st

pub after-Left :
    {A : Type 0} (st : Store) (r : Option (Store × A)) → Sound st → Left r → Sound (after st r)
after-Left st none s l = s
after-Left st (some (st', out)) s l = l

mark_caret-Sound :
    (now : ℕ) (doc_id agent : Text) (human : Option Text) (version : ℕ) (caret : Option Caret)
    (st : Store)
    → Sound st
    → Sound (mark_caret now doc_id agent human version caret st)
unfolding mark
mark_caret-Sound now doc_id agent human version none st s = s
mark_caret-Sound now doc_id agent human version (some c) st s = s

module _ (uuid : ℕ → Text) (now : ℕ) (doc_id agent : Text) (human : Option Text)
    (options : WriteOptions) (doc : SharedDoc) where
  commit-Left :
      (next : Text) (outcome : ContributionOutcome) (st : Store)
      → Sound st
      → SoundDoc st.conflict_seq doc
      → Left (commit uuid now doc_id agent human options doc next outcome st)
  unfolding commit
  commit-Left next outcome st s h =
      let (u, e, n) = attribute_change-total uuid now doc (some agent) none next st.drawn in
      rw (e, commit)
        (mark_caret-Sound now doc_id agent human (doc.version + 1) u.caret _
          (insert-SoundDocs st.conflict_seq doc_id _ st.docs s (inl n, h.1)))

  land_written-Left :
      (next : Text) (st : Store)
      → Sound st
      → SoundDoc st.conflict_seq doc
      → Left (land_written uuid now doc_id agent human options doc next st)
  unfolding land_written
  land_written-Left next st s h =
      let r = commit uuid now doc_id agent human options doc next ContributionOutcome.written st in
      let l = commit-Left next ContributionOutcome.written st s h in
      elim (Option-cases r) [
        | inl e ↦ rw (e, land_written) tt
        | inr ((st', c), e) ↦ rw (e, land_written) (rw e at l)
      ]

  land_merged-Left :
      (next : Text) (hunks expected : ℕ) (st : Store)
      → Sound st
      → SoundDoc st.conflict_seq doc
      → Left (land_merged uuid now doc_id agent human options doc next hunks expected st)
  unfolding land_merged
  land_merged-Left next hunks expected st s h =
      let r = commit uuid now doc_id agent human options doc next ContributionOutcome.merged st in
      let l = commit-Left next ContributionOutcome.merged st s h in
      elim (Option-cases r) [
        | inl e ↦ rw (e, land_merged) tt
        | inr ((st', c), e) ↦ rw (e, land_merged) (rw e at l)
      ]

  guard_section-Left :
      (next : Text) (st : Store) (landed : Option (Store × WriteOutcome))
      → Sound st
      → Left landed
      → Left (guard_section uuid now doc_id agent human options doc next st landed)
  guard_section-Left next st landed s l =
      elim (Option-cases (out_of_bounds st doc doc_id agent next)) [
        | inl e ↦ rw (e, guard_section) l
        | inr (breach, e) ↦ rw (e, guard_section) s
      ]

  keep_conflict-Left :
      (content base : Text) (cs : List MergeConflict) (st : Store)
      → Sound st
      → SoundDoc st.conflict_seq doc
      → Left (some (keep_conflict uuid now doc_id agent human options doc base content cs st))
  unfolding keep_conflict
  keep_conflict-Left content base cs st s (one, (apart, low)) =
      insert-SoundDocs (suc st.conflict_seq) doc_id _ st.docs
        (SoundDocs-suc st.conflict_seq st.docs s)
        (
          one,
          supersede-Pairwise st.conflict_seq
              (pending uuid now doc_id agent human options doc base content cs st) doc.conflicts
              refl apart low,
        )

  rebase-Left :
      (expected : ℕ) (content : Text) (st : Store)
      → Sound st
      → SoundDoc st.conflict_seq doc
      → Left (rebase uuid now doc_id agent human options doc expected content st)
  unfolding rebase
  rebase-Left expected content st s h =
      let base = or_else (lookup (base_key doc_id agent) st.bases) [] in
      elim (result-cases (merge3 base content doc.content)) [
        | inl (next, hunks, e) ↦
            rw (e, rebase)
              (guard_section-Left next st _ s (land_merged-Left next hunks expected st s h))
        | inr (cs, e) ↦ rw (e, rebase) (keep_conflict-Left content base cs st s h)
      ]

  pub write_doc-Left :
      (expected : ℕ) (content : Text) (st : Store)
      → Sound st
      → SoundDoc st.conflict_seq doc
      → Left (write_doc uuid now doc_id agent human options doc expected content st)
  unfolding write_doc
  write_doc-Left expected content st s h = elim (Option-cases (held_by_other agent doc.lease)) [
    | inr (l, e) ↦ rw (e, write_doc) s
    | inl e ↦ elim (Bool-cases (expected == doc.version)) [
      | inl f ↦
          rw (e, f, write_doc)
            (guard_section-Left content st _ s (land_written-Left content st s h))
      | inr f ↦ rw (e, f, write_doc) (rebase-Left expected content st s h)
    ]
  ]
