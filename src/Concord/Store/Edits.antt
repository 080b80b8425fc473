-- ===== src/Concord/Store/Edits.antt =====
-- What an accepted write does: it applies the edits of both sides of a merge, and keeps the lines
-- outside the writer's section.
use please_hire_me.Prelude.{
  ℕ, ◌-◌, ◌≡◌, ◌≢◌, ◌⊎◌, ap, subst, ◌∙◌, inl, inr, true, Option, none, some, List, [], ◌++◌, arith,
  Option-cases, or_else, take, drop, Text, lookup,
}
use please_hire_me.Concord.DocResource.{doc_resource}
use please_hire_me.Concord.Merge.{Line, split_lines, diff_lines}
use please_hire_me.Concord.Merge.Applied.{Applies, merge3-Applies}
use please_hire_me.Concord.Sections.{
  SectionRange, is_allocated, heading_for, locate_section, find_out_of_bounds,
}
use please_hire_me.Concord.Sections.Bounds.{find_out_of_bounds-frame}
use please_hire_me.Concord.Sections.Ranges.{locate_section-bounds}
use please_hire_me.Concord.Store.State.{
  Store, SharedDoc, AuthzCheck, workspace_write, base_key, mark,
}
use please_hire_me.Concord.Store.Commit.{WriteOptions, Committed, out_of_bounds}
use please_hire_me.Concord.Store.Write.{
  WriteOutcome, written, merged_in, denied, entered, entry_store, write,
}
use please_hire_me.Concord.Store.Effects.{write_effect}
use please_hire_me.Concord.Store.Promises.{Effect, Landed}

out_of_bounds_frame :
    (st : Store) (doc : SharedDoc) (doc_id agent next : Text)
    → is_allocated doc_id st.sections ≡ true
    → out_of_bounds st doc doc_id agent next ≡ none
    → (heading : Text) × (range : SectionRange) × (heading_for doc_id agent st.sections
        ≡ some heading)
      × (locate_section doc.content heading ≡ some range)
      × (find_out_of_bounds doc.content next range ≡ none)
unfolding out_of_bounds
out_of_bounds_frame st doc doc_id agent next a e =
    elim (Option-cases (heading_for doc_id agent st.sections)) [
      | inl f ↦ absurd (ground arith)
      | inr (heading, f) ↦ elim (Option-cases (locate_section doc.content heading)) [
        | inl g ↦ absurd (ground arith)
        | inr (range, g) ↦ elim (Option-cases (find_out_of_bounds doc.content next range)) [
          | inl h ↦ (heading, range, f, g, h)
          | inr (v, h) ↦ absurd (ground arith)
        ]
      ]
    ]

module _ (uuid : ℕ → Text) (authorize : AuthzCheck) (now : ℕ) (doc_id agent : Text) (expected : ℕ)
    (content : Text) (options : WriteOptions) (st st' : Store) where
  -- The effect of a write that is known to have returned.
  returned :
      (out : WriteOutcome)
      → write uuid authorize now doc_id agent expected content options st ≡ some (st', out)
      → ((rule reason : Text) → out ≢ denied rule reason)
      → (human : Option Text) × Effect doc_id agent
          (entered now doc_id st)
          (entry_store now doc_id agent human st)
          expected
          content
          (or_else (lookup (base_key doc_id agent) st.bases) [])
          st'
          out
  returned out e not_denied =
      let verdict = authorize agent workspace_write (doc_resource doc_id) in
      elim (write_effect uuid authorize now doc_id agent expected content options st) [
        | inr (_, (s, o, f, effect)) ↦
            let same_store : s ≡ st' = ground arith in
            let same : o ≡ out = ground arith in
            (
              verdict.human_id,
              subst
                  (λ t.
                    Effect doc_id agent (entered now doc_id st)
                      (entry_store now doc_id agent verdict.human_id st) expected content
                      (or_else (lookup (base_key doc_id agent) st.bases) []) st' t)
                  same
                  (subst
                    (λ t.
                      Effect doc_id agent (entered now doc_id st)
                        (entry_store now doc_id agent verdict.human_id st) expected content
                        (or_else (lookup (base_key doc_id agent) st.bases) []) t o)
                    same_store effect),
            )
        | inl (_, (s, f, _)) ↦ absurd (not_denied verdict.rule_id verdict.reason (ground arith))
      ]

  in_bounds :
      (c : Committed) (out : WriteOutcome)
      → write uuid authorize now doc_id agent expected content options st ≡ some (st', out)
      → (out ≡ written c) ⊎ ((hunks : ℕ) × (out ≡ merged_in c hunks))
      → (human : Option Text) × (out_of_bounds
            (entry_store now doc_id agent human st)
            (entered now doc_id st)
            doc_id
            agent
            c.content
          ≡ none)
  in_bounds c out e (inl w) =
      let (human, (_, _, same, inside, _)) =
        returned (written c) (rw w at e) (λ rule reason same. ground arith) in
      (human, ap (out_of_bounds _ _ doc_id agent) same ∙ inside)
  in_bounds c out e (inr (hunks, w)) =
      let (human, (_, _, _, inside, _)) =
        returned (merged_in c hunks) (rw w at e) (λ rule reason same. ground arith) in
      (human, inside)

  -- A merged write carries out the edits of both sides. Where the write returns the merged text `c`,
  -- the store holds the document with that text, one version on, and the text is the one that the
  -- writer last read with exactly the hunks of two diffs against it applied, deletions and
  -- insertions, each once: the writer's and that of the document as it stands.
  pub write-Applies :
      (c : Committed) (hunks : ℕ)
      → write uuid authorize now doc_id agent expected content options st
        ≡ some (st', merged_in c hunks)
      → let base = or_else (lookup (base_key doc_id agent) st.bases) [] in
        Landed doc_id (entered now doc_id st) c.content st'
        × Applies
            (split_lines base)
            (diff_lines (split_lines base) (split_lines content))
            (diff_lines (split_lines base) (split_lines (entered now doc_id st).content))
            c.content
  write-Applies c hunks e =
      let (_, (_, _, m, _, landed)) =
        returned (merged_in c hunks) e (λ rule reason same. ground arith) in
      (landed, merge3-Applies _ content _ c.content hunks m)

  -- An accepted write of a document with allocated sections stays inside the writer's section. The
  -- writer has a heading there, the heading's section is found in the text before the write, and
  -- the text after it is the text before with only the lines of that section replaced.
  pub write-stays_in_section :
      (c : Committed) (out : WriteOutcome)
      → write uuid authorize now doc_id agent expected content options st ≡ some (st', out)
      → (out ≡ written c) ⊎ ((hunks : ℕ) × (out ≡ merged_in c hunks))
      → is_allocated doc_id st.sections ≡ true
      → let before = (entered now doc_id st).content in
        (heading : Text) × (range : SectionRange) × (mid : List Line) × (heading_for doc_id agent
            st.sections
          ≡ some heading)
        × (locate_section before heading ≡ some range)
        × (split_lines c.content
            ≡ take (range.start_line - 1) (split_lines before)
              ++ (mid ++ drop range.end_line (split_lines before)))
  unfolding mark
  write-stays_in_section c out e accepted allocated =
      let doc = entered now doc_id st in
      let (human, inside) = in_bounds c out e accepted in
      let (heading, range, f, g, h) =
        out_of_bounds_frame (entry_store now doc_id agent human st) doc doc_id agent c.content
          allocated inside in
      let (_, small, _, _) = locate_section-bounds doc.content heading range g in
      let (mid, q) = find_out_of_bounds-frame doc.content c.content range small h in
      (heading, range, mid, f, g, q)
