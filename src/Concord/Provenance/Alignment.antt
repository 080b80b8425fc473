-- ===== src/Concord/Provenance/Alignment.antt =====
-- Attribution stays aligned with the text: one entry for each line, and a carried entry stands at
-- a line with the text that it stood at before.
use please_hire_me.Prelude.{
  ℕ, zero, suc, ◌+◌, ◌-◌, ◌≤◌, ◌<◌, ◌≡◌, refl, ap, subst, ◌∙◌, ◌⊎◌, inl, inr, none, some, List, [],
  ◌∷◌, ◌++◌, arith, length, take, drop, get_elem?, append-nil, append_assoc, Text, drop-drop,
  take_all, length-drop,
}
use please_hire_me.Concord.Merge.{Line, Hunk, split_lines, diff_lines}
use please_hire_me.Concord.Merge.Patch.{patch, InOrder, InOrder-weaken}
use please_hire_me.Concord.Merge.Diff.{diff_lines-InOrder, patch-diff_lines}
use please_hire_me.Concord.Provenance.{
  LineProvenance, ProvenanceInput, ProvenanceUpdate, updated, Build, carry, draws, attribute,
  carry_lines, attribute_lines, move_caret, apply_hunk, apply_hunks, reconcile_provenance,
  start_build, nobody,
}

-- Entry by entry.
abbrev pub Aligned : (LineProvenance → Line → Type 0) → List LineProvenance → List Line → Type 0
Aligned P [] [] = Unit {0}
Aligned P [] (l ∷ ls) = ⊥
Aligned P (e ∷ es) [] = ⊥
Aligned P (e ∷ es) (l ∷ ls) = P e l × Aligned P es ls

module _ (P : LineProvenance → Line → Type 0) where
  Aligned-snoc :
      (es : List LineProvenance) (ls : List Line) (e : LineProvenance) (l : Line)
      → Aligned P es ls
      → P e l
      → Aligned P (es ++ e ∷ []) (ls ++ l ∷ [])
  Aligned-snoc [] [] e l a p = (p, tt)
  Aligned-snoc [] (m ∷ ls) e l a p = elim a [ ]
  Aligned-snoc (d ∷ es) [] e l a p = elim a [ ]
  Aligned-snoc (d ∷ es) (m ∷ ls) e l a p = (a.0, Aligned-snoc es ls e l a.1 p)

  Aligned-length :
      (es : List LineProvenance) (ls : List Line) → Aligned P es ls → length es ≡ length ls
  Aligned-length [] [] a = refl
  Aligned-length [] (m ∷ ls) a = elim a [ ]
  Aligned-length (d ∷ es) [] a = elim a [ ]
  Aligned-length (d ∷ es) (m ∷ ls) a = ap suc (Aligned-length es ls a.1)

-- The line at an index that is in range.
drop_at :
    (n : ℕ) (old : List Line)
    → n < length old
    → (l : Line) × (get_elem? old n ≡ some l) × (drop n old ≡ l ∷ drop (suc n) old)
drop_at n [] h = elim h [ ]
drop_at zero (x ∷ old) h = (x, refl, refl)
drop_at (suc n) (x ∷ old) h = drop_at n old (omega arith)

module _ (uuid : ℕ → Text) (input : ProvenanceInput) (P : LineProvenance → Line → Type 0)
    (old : List Line)
    (carried : (index drawn : ℕ) (l : Line)
      → get_elem? old index ≡ some l
      → P (carry uuid input index drawn) l)
    (fresh : (drawn : ℕ) (l : Line) → P (attribute uuid input drawn) l) where
  carry_lines-Aligned :
      (rounds : ℕ) (b : Build) (ls : List Line)
      → b.cursor + rounds ≤ length old
      → Aligned P b.lines ls
      → Aligned P (carry_lines uuid input rounds b).lines (ls ++ take rounds (drop b.cursor old))
        × ((carry_lines uuid input rounds b).cursor ≡ b.cursor + rounds)
  unfolding carry_lines
  carry_lines-Aligned zero b ls h a = (rw (append-nil ls) a, omega arith)
  carry_lines-Aligned (suc rounds) b ls h a =
      let (l, at, cut) = drop_at b.cursor old (omega arith) in
      let e : LineProvenance = carry uuid input b.cursor b.drawn in
      let b' : Build = record b {
        lines = b.lines ++ e ∷ [];
        cursor = suc b.cursor;
        drawn = b.drawn + draws uuid input b.cursor;
      } in
      let (rest, moved) =
        carry_lines-Aligned rounds b' (ls ++ l ∷ []) (omega arith)
          (Aligned-snoc P b.lines ls e l a (carried b.cursor b.drawn l at)) in
      (
        rw cut (rw (append_assoc ls (l ∷ []) (take rounds (drop (suc b.cursor) old))) at rest),
        omega arith,
      )

  attribute_lines-Aligned :
      (new : List Line) (b : Build) (ls : List Line)
      → Aligned P b.lines ls
      → Aligned P (attribute_lines uuid input new b).lines (ls ++ new)
        × ((attribute_lines uuid input new b).cursor ≡ b.cursor)
  unfolding attribute_lines
  attribute_lines-Aligned [] b ls a = (rw (append-nil ls) a, refl)
  attribute_lines-Aligned (l ∷ new) b ls a =
      let b' : Build = record b {
        lines = b.lines ++ attribute uuid input b.drawn ∷ [];
        changed = b.changed ++ uuid b.drawn ∷ [];
        drawn = suc b.drawn;
      } in
      let (rest, moved) =
        attribute_lines-Aligned new b' (ls ++ l ∷ [])
          (Aligned-snoc P b.lines ls (attribute uuid input b.drawn) l a (fresh b.drawn l)) in
      (rw (append_assoc ls (l ∷ []) new) at rest, moved)

  move_caret-same :
      (h : Hunk) (b : Build)
      → ((move_caret uuid input old h b).lines ≡ b.lines)
        × ((move_caret uuid input old h b).cursor ≡ b.cursor)
  move_caret-same h b = ground arith

  apply_hunk-Aligned :
      (h : Hunk) (b : Build) (ls : List Line)
      → b.cursor ≤ h.start
      → h.start + h.deleted ≤ length old
      → Aligned P b.lines ls
      → Aligned P
          (apply_hunk uuid input old h b).lines
          ((ls ++ take (h.start - b.cursor) (drop b.cursor old)) ++ h.inserted)
        × ((apply_hunk uuid input old h b).cursor ≡ h.start + h.deleted)
  unfolding apply_hunk
  apply_hunk-Aligned h b ls m n a =
      let k : ℕ = h.start - b.cursor in
      let kept : Build = carry_lines uuid input k b in
      let (a', moved) = carry_lines-Aligned k b ls (omega arith) a in
      let skipped : Build = record kept { cursor = kept.cursor + h.deleted } in
      let (a'', same) =
        attribute_lines-Aligned h.inserted skipped (ls ++ take k (drop b.cursor old)) a' in
      let (p, q) = move_caret-same h (attribute_lines uuid input h.inserted skipped) in
      (rw p a'', q ∙ same ∙ omega arith)

  apply_hunks-Aligned :
      (hs : List Hunk) (b : Build) (ls : List Line)
      → InOrder b.cursor (length old) hs
      → b.cursor ≤ length old
      → Aligned P b.lines ls
      → Aligned P
          (apply_hunks uuid input old hs b).lines
          (ls ++ patch b.cursor hs (drop b.cursor old))
  unfolding apply_hunks patch
  apply_hunks-Aligned [] b ls w m a =
      let k : ℕ = length old - b.cursor in
      let (a', _) = carry_lines-Aligned k b ls (omega arith) a in
      let every : take k (drop b.cursor old) ≡ drop b.cursor old =
        take_all k (drop b.cursor old) (omega (arith, length-drop b.cursor old)) in
      rw every at a'
  apply_hunks-Aligned (h ∷ hs) b ls w m a =
      let next : ℕ = h.start + h.deleted in
      let k : ℕ = h.start - b.cursor in
      let b' : Build = apply_hunk uuid input old h b in
      let front : List Line = take k (drop b.cursor old) in
      let (a', moved) = apply_hunk-Aligned h b ls w.0 w.1 a in
      let w' : InOrder b'.cursor (length old) hs =
        rw moved (InOrder-weaken {i = suc next} {k = next} (length old) hs (omega arith) w.3) in
      let m' : b'.cursor ≤ length old = rw moved w.1 in
      let ih : Aligned P (apply_hunks uuid input old hs b').lines
          (((ls ++ front) ++ h.inserted) ++ patch b'.cursor hs (drop b'.cursor old)) =
        apply_hunks-Aligned hs b' ((ls ++ front) ++ h.inserted) w' m' a' in
      let gap : b.cursor + (k + h.deleted) ≡ next = omega (arith, w.0) in
      let cut : drop (k + h.deleted) (drop b.cursor old) ≡ drop next old =
        drop-drop (k + h.deleted) b.cursor old ∙ ap (λ t. drop t old) gap in
      rw cut (
        subst (Aligned P (apply_hunks uuid input old hs b').lines)
          (ap (λ t. ((ls ++ front) ++ h.inserted) ++ patch t hs (drop t old)) moved
            ∙ append_assoc (ls ++ front) h.inserted (patch next hs (drop next old))
            ∙ append_assoc ls front (h.inserted ++ patch next hs (drop next old)))
          ih)

  -- The entries that the loop ends with, against the new text.
  pub build-Aligned :
      (new : List Line) (drawn : ℕ)
      → Aligned P
          (apply_hunks uuid input old (diff_lines old new) (start_build uuid input drawn)).lines
          new
  build-Aligned new drawn = rw (patch-diff_lines old new) at (
      apply_hunks-Aligned (diff_lines old new) (start_build uuid input drawn) []
        (diff_lines-InOrder old new) (omega arith) tt)

-- The exception is never raised: there is one entry for each line of the new text, whatever the
-- earlier entries are.
pub reconcile_provenance-total :
    (uuid : ℕ → Text) (input : ProvenanceInput) (drawn : ℕ)
    → (u : ProvenanceUpdate) × (reconcile_provenance uuid input drawn ≡ updated u)
      × (length u.lines ≡ length (split_lines input.next_content))
unfolding reconcile_provenance
reconcile_provenance-total uuid input drawn =
    let old : List Line = split_lines input.previous_content in
    let new : List Line = split_lines input.next_content in
    let P : LineProvenance → Line → Type 0 = λ e l. Unit {0} in
    let b : Build =
      apply_hunks uuid input old (diff_lines old new) (start_build uuid input drawn) in
    let same : length b.lines ≡ length new =
      Aligned-length P b.lines new
        (build-Aligned uuid input P old (λ i d l e. tt) (λ d l. tt) new drawn) in
    (record { lines = b.lines; changed_line_ids = b.changed; caret = b.caret }, ground arith, same)

-- An entry is either new, and names the writer, or it is an earlier one, which stood at a line
-- with the same text.
abbrev pub IsAttributed : ProvenanceInput → LineProvenance → Line → Type 0
IsAttributed input e l =
    ((e.last_modified_by_agent_id ≡ input.agent_id)
      × (e.contribution_id ≡ some input.contribution_id)
      × (e.resulting_document_version ≡ input.version))
    ⊎ ((k : ℕ) × (get_elem? input.previous k ≡ some e)
        × (get_elem? (split_lines input.previous_content) k ≡ some l))

carry-In :
    (uuid : ℕ → Text) (input : ProvenanceInput) (index drawn : ℕ)
    → index < length input.previous
    → get_elem? input.previous index ≡ some (carry uuid input index drawn)
carry-In uuid input index drawn h = at_index input.previous index h
  where
    at_index :
        (es : List LineProvenance) (k : ℕ)
        → k < length es
        → get_elem? es k
          ≡ some (elim (get_elem? es k) [
            | some entry ↦ entry
            | none ↦ nobody (uuid drawn) input.version input.at
          ])
    at_index [] k h = elim h [ ]
    at_index (x ∷ es) zero h = refl
    at_index (x ∷ es) (suc k) h = at_index es k (omega arith)

get_elem?-lt : {A : Type 0} (xs : List A) (k : ℕ) (a : A) → get_elem? xs k ≡ some a → k < length xs
get_elem?-lt [] k a e = cc
get_elem?-lt (x ∷ xs) zero a e = omega arith
get_elem?-lt (x ∷ xs) (suc k) a e = omega (arith, get_elem?-lt xs k a e)

-- If the earlier entries are one to a line, each line of the new text has an entry that is new and
-- names the writer, the commit and its version, or that an equal line had before.
pub reconcile_provenance-attributes :
    (uuid : ℕ → Text) (input : ProvenanceInput) (drawn : ℕ) (u : ProvenanceUpdate)
    → length input.previous ≡ length (split_lines input.previous_content)
    → reconcile_provenance uuid input drawn ≡ updated u
    → Aligned (IsAttributed input) u.lines (split_lines input.next_content)
unfolding reconcile_provenance
reconcile_provenance-attributes uuid input drawn u one_each e =
    let old : List Line = split_lines input.previous_content in
    let new : List Line = split_lines input.next_content in
    let b : Build =
      apply_hunks uuid input old (diff_lines old new) (start_build uuid input drawn) in
    let same : b.lines ≡ u.lines = ground arith in
    rw same at (
      build-Aligned uuid input (IsAttributed input) old
        (λ index d l at.
          inr (index, carry-In uuid input index d (omega (arith, get_elem?-lt old index l at)), at))
        (λ d l. inl (refl, refl, refl)) new drawn)
