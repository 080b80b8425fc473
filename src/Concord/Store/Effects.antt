-- ===== src/Concord/Store/Effects.antt =====
-- What a write does, on every branch.
use please_hire_me.Prelude.{
  ℕ, ◌+◌, ◌≡◌, ◌≢◌, ◌⊎◌, refl, sym, ap, subst, ◌∙◌, inl, inr, Bool, true, false, not, Option, none,
  some, List, [], ◌∷◌, ◌++◌, arith, ◌==◌, ==_iff, Bool-cases, Option-cases, or_else,
  In-append_right, length, Text, text_eq, lookup, lookup-insert_self, keep_if,
}
use please_hire_me.Concord.DocResource.{doc_resource}
use please_hire_me.Concord.Merge.{
  MergeConflict, MergeResult, merged, conflicted, merge3, split_lines,
}
use please_hire_me.Concord.Provenance.{ProvenanceUpdate, updated}
use please_hire_me.Concord.Provenance.Alignment.{reconcile_provenance-total}
use please_hire_me.Concord.Store.State.{
  Store, SharedDoc, AuthzCheck, workspace_write, PendingConflict, PresenceCaret,
  ContributionOutcome, base_key, mark, held_by_other,
}
use please_hire_me.Concord.Store.Commit.{
  WriteOptions, Committed, out_of_bounds, attribute_change, commit, mark_caret,
}
use please_hire_me.Concord.Store.Promises.{Landed, WouldLand, Promised}
use please_hire_me.Concord.Store.Write.{
  WriteOutcome, written, merged_in, denied, land_written, land_merged, keep_conflict, rebase,
  write_doc, pending, guard_section, entered, entry_store, write,
}

pub attribute_change-total :
    (uuid : ℕ → Text) (now : ℕ) (doc : SharedDoc) (agent human : Option Text) (next : Text) (n : ℕ)
    → (u : ProvenanceUpdate) × (attribute_change uuid now doc agent human next n ≡ updated u)
      × (length u.lines ≡ length (split_lines next))
unfolding attribute_change
attribute_change-total uuid now doc agent human next n = reconcile_provenance-total uuid _ _

mark-docs :
    (now : ℕ) (doc_id agent : Text) (human : Option Text) (editing : Bool)
    (caret : Option PresenceCaret) (st : Store)
    → (mark now doc_id agent human editing caret st).docs ≡ st.docs
unfolding mark
mark-docs now doc_id agent human editing caret st = refl

mark_caret-docs :
    (now : ℕ) (doc_id agent : Text) (human : Option Text) (version : ℕ) (u : ProvenanceUpdate)
    (st : Store)
    → (mark_caret now doc_id agent human version u.caret st).docs ≡ st.docs
unfolding mark
mark_caret-docs now doc_id agent human version u st = ground arith

pub result-cases :
    (r : MergeResult)
    → ((next : Text) × (hunks : ℕ) × (r ≡ merged next hunks))
      ⊎ ((cs : List MergeConflict) × (r ≡ conflicted cs))
result-cases (merged next hunks) = inl (next, hunks, refl)
result-cases (conflicted cs) = inr (cs, refl)

module _ (uuid : ℕ → Text) (now : ℕ) (doc_id agent : Text) (human : Option Text)
    (options : WriteOptions) (doc : SharedDoc) where
  commit_effect :
      (next : Text) (outcome : ContributionOutcome) (st : Store)
      → (st' : Store) × (c : Committed) × (commit uuid now doc_id agent human options doc next
            outcome st
          ≡ some (st', c))
        × (c.content ≡ next)
        × Landed doc_id doc next st'
  unfolding commit
  commit_effect next outcome st =
      let (u, e, n) = attribute_change-total uuid now doc (some agent) none next st.drawn in
      rw (e, commit)
        (
          _,
          _,
          refl,
          refl,
          (
            _,
            ap (lookup doc_id) (mark_caret-docs now doc_id agent human (doc.version + 1) u _)
                ∙ lookup-insert_self doc_id _ st.docs,
            refl,
            refl,
            n,
          ),
        )

  land_written_effect :
      (next : Text) (st : Store)
      → (st' : Store) × (c : Committed) × (land_written uuid now doc_id agent human options doc next
            st
          ≡ some (st', written c))
        × (c.content ≡ next)
        × Landed doc_id doc next st'
  unfolding land_written
  land_written_effect next st =
      let (st', c, e, f, l) = commit_effect next ContributionOutcome.written st in
      rw (e, land_written) (_, c, refl, f, l)

  land_merged_effect :
      (next : Text) (hunks expected : ℕ) (st : Store)
      → (st' : Store) × (c : Committed) × (land_merged uuid now doc_id agent human options doc next
            hunks expected st
          ≡ some (st', merged_in c hunks))
        × (c.content ≡ next)
        × Landed doc_id doc next st'
  unfolding land_merged
  land_merged_effect next hunks expected st =
      let (st', c, e, f, l) = commit_effect next ContributionOutcome.merged st in
      rw (e, land_merged) (_, c, refl, f, l)

  keep_conflict_effect :
      (st : Store) (expected : ℕ) (content base : Text) (cs : List MergeConflict)
      → held_by_other agent doc.lease ≡ none
      → expected ≢ doc.version
      → merge3 base content doc.content ≡ conflicted cs
      → Promised doc_id agent doc st expected content base
          (some (keep_conflict uuid now doc_id agent human options doc base content cs st))
  unfolding keep_conflict
  keep_conflict_effect st expected content base cs free differ e =
      let p = pending uuid now doc_id agent human options doc base content cs st in
      let others =
        keep_if (λ (c : PendingConflict). not (text_eq c.agent_id agent)) doc.conflicts in
      let stands =
        lookup-insert_self doc_id (record doc { conflicts = others ++ p ∷ [] }) st.docs in
      (
        _,
        _,
        refl,
        (
          free,
          differ,
          e,
          refl,
          refl,
          (_, stands, refl, refl),
          (_, p, stands, In-append_right p others (p ∷ []) (inl refl), refl, refl, refl, refl),
        ),
      )

  guard_section_effect :
      (st : Store) (expected : ℕ) (content base next : Text)
      (landed : Option (Store × WriteOutcome))
      → held_by_other agent doc.lease ≡ none
      → WouldLand doc_id agent doc expected content base next
      → (out_of_bounds st doc doc_id agent next ≡ none
          → Promised doc_id agent doc st expected content base landed)
      → Promised doc_id agent doc st expected content base
          (guard_section uuid now doc_id agent human options doc next st landed)
  guard_section_effect st expected content base next landed free would lands =
      elim (Option-cases (out_of_bounds st doc doc_id agent next)) [
        | inl f ↦ rw (f, guard_section) (lands f)
        | inr (breach, f) ↦ rw (f, guard_section) (_, _, refl, (free, next, would, f, refl))
      ]

  rebase_effect :
      (st : Store) (expected : ℕ) (content : Text)
      → held_by_other agent doc.lease ≡ none
      → expected ≢ doc.version
      → Promised doc_id agent doc st expected content
          (or_else (lookup (base_key doc_id agent) st.bases) [])
          (rebase uuid now doc_id agent human options doc expected content st)
  unfolding rebase
  rebase_effect st expected content free differ =
      let base = or_else (lookup (base_key doc_id agent) st.bases) [] in
      elim (result-cases (merge3 base content doc.content)) [
        | inl (next, hunks, e) ↦
            rw (e, rebase)
              (guard_section_effect st expected content base next _ free (inr (differ, (hunks, e)))
                (λ f.
                  let (st', c, g, h, l) = land_merged_effect next hunks expected st in
                  (
                    st',
                    merged_in c hunks,
                    g,
                    (
                      free,
                      differ,
                      e ∙ ap (λ t. merged t hunks) (sym h),
                      ap (out_of_bounds st doc doc_id agent) h ∙ f,
                      subst (λ t. Landed doc_id doc t st') (sym h) l,
                    ),
                  )))
        | inr (cs, e) ↦
            rw (e, rebase) (keep_conflict_effect st expected content base cs free differ e)
      ]

  write_doc_effect :
      (expected : ℕ) (content : Text) (st : Store)
      → Promised doc_id agent doc st expected content
          (or_else (lookup (base_key doc_id agent) st.bases) [])
          (write_doc uuid now doc_id agent human options doc expected content st)
  unfolding write_doc
  write_doc_effect expected content st =
      let base = or_else (lookup (base_key doc_id agent) st.bases) [] in
      elim (Option-cases (held_by_other agent doc.lease)) [
        | inr (l, held) ↦ rw (held, write_doc) (_, _, refl, (l, held, refl, refl, refl))
        | inl free ↦ elim (Bool-cases (expected == doc.version)) [
          | inl e ↦
              rw (free, e, write_doc)
                (guard_section_effect st expected content base content _ free
                  (inl (ground (arith, ==_iff expected doc.version), refl))
                  (λ f.
                    let (st', c, g, h, landed) = land_written_effect content st in
                    (
                      st',
                      written c,
                      g,
                      (free, ground (arith, ==_iff expected doc.version), h, f, landed),
                    )))
          | inr e ↦
              rw (free, e, write_doc)
                (rebase_effect st expected content free
                  (ground (arith, ==_iff expected doc.version)))
        ]
      ]

-- A write always returns: the exception of the attribution is never raised. One that the policy
-- refuses is denied, with the policy's rule and reason, and changes no document. Any other write
-- has the outcome that its circumstances call for and its effect, on the document as the write
-- found it: written at the version it expects, merged or in conflict as `merge3` says of the
-- text that the Agent last read, outside its section as `out_of_bounds` says, or refused for
-- somebody else's lease, which no other outcome passes over.
pub write_effect :
    (uuid : ℕ → Text) (authorize : AuthzCheck) (now : ℕ) (doc_id agent : Text) (expected : ℕ)
    (content : Text) (options : WriteOptions) (st : Store)
    → let verdict = authorize agent workspace_write (doc_resource doc_id) in
      let r = write uuid authorize now doc_id agent expected content options st in
      ((verdict.allowed ≡ false)
        × ((st' : Store) × (r ≡ some (st', denied verdict.rule_id verdict.reason))
            × (st'.docs ≡ st.docs)))
      ⊎ ((verdict.allowed ≡ true)
          × Promised doc_id agent
              (entered now doc_id st)
              (entry_store now doc_id agent verdict.human_id st)
              expected
              content
              (or_else (lookup (base_key doc_id agent) st.bases) [])
              r)
unfolding write
write_effect uuid authorize now doc_id agent expected content options st =
    let verdict = authorize agent workspace_write (doc_resource doc_id) in
    elim (Bool-cases verdict.allowed) [
      | inl granted ↦ inr (
        granted,
        rw (granted, write)
            (write_doc_effect uuid now doc_id agent verdict.human_id options (entered now doc_id st)
              expected content (entry_store now doc_id agent verdict.human_id st)),
      )
      | inr refused ↦ inl (refused, rw (refused, write) (_, refl, refl))
    ]
