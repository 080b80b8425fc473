-- ===== src/Concord/Store/Settling.antt =====
-- What resolving a conflict does, on every branch.
use please_hire_me.Prelude.{
  ℕ, ◌+◌, ◌≡◌, ◌≢◌, ◌⊎◌, refl, sym, ap, ◌∙◌, inl, inr, Bool, true, false, not, ◌&&◌, Option, none,
  some, List, [], ◌∷◌, arith, Bool-cases, Option-cases, In, keep_if, find?, find?-In, Text,
  text_eq_iff, lookup, lookup-insert_self,
}
use please_hire_me.Concord.Merge.{MergeConflict, merged, conflicted, merge3}
use please_hire_me.Concord.Store.State.{Store, SharedDoc, PendingConflict, ConflictId, base_key}
use please_hire_me.Concord.Store.Effects.{attribute_change-total, result-cases}
use please_hire_me.Concord.Store.Promises.{Landed, Kept}
use please_hire_me.Concord.Store.Resolve.{
  ResolveOutcome, settled, contested, foreign, not_found, same_conflict, is_owner, replace_conflict,
  renewed, keep_contested, settle, settled_doc, resolve_pending, find_pending, resolve,
}

pub is_owner_iff :
    (owner : Option Text) (human : Text) → is_owner owner human ≡ true → owner ≡ some human
is_owner_iff none human e = cc
is_owner_iff (some o) human e = ap some ((text_eq_iff o human).0 e)

not_owner : (owner : Option Text) (human : Text) → is_owner owner human ≡ false → owner ≢ some human
not_owner none human e f = cc
not_owner (some o) human e f = ground (arith, text_eq_iff o human)

find?-keep_if :
    (p : PendingConflict → Bool) (xs : List PendingConflict)
    → find? p (keep_if (λ x. not (p x)) xs) ≡ none
find?-keep_if p [] = refl
find?-keep_if p (x ∷ xs) =
    let ih = find?-keep_if p xs in
    elim (Bool-cases (p x)) [ inl e ↦ rw e ih | inr e ↦ rw (e, e) ih ]

replace_conflict-In :
    (id : ConflictId) (next p : PendingConflict) (ps : List PendingConflict)
    → In p ps
    → same_conflict id p ≡ true
    → In next (replace_conflict id next ps)
unfolding replace_conflict
replace_conflict-In id next p [] m e = elim m [ ]
replace_conflict-In id next p (q ∷ ps) (inl h) e = inl (rw (sym h, e) refl)
replace_conflict-In id next p (q ∷ ps) (inr h) e = inr (replace_conflict-In id next p ps h e)

-- Who may settle a conflict: the orchestrator, or the human who owns the losing edit.
abbrev pub Entitled : Bool → Text → PendingConflict → Type 0
Entitled is_orchestrator human p = (is_orchestrator ≡ true) ⊎ (p.human_id ≡ some human)

module _ (doc_id : Text) (id : ConflictId) (human chosen : Text) (is_orchestrator : Bool) where
  -- What a settlement promises, by its outcome, for a conflict `p` that stands on `doc`.
  abbrev pub Settlement : SharedDoc → PendingConflict → Store → Store → ResolveOutcome → Type 0
  Settlement doc p st st' (settled version text) =
      (version ≡ doc.version + 1)
      × Entitled is_orchestrator human p
      × ((hunks : ℕ) × (merge3 p.theirs chosen doc.content ≡ merged text hunks))
      × Landed doc_id doc text st'
      × ((doc' : SharedDoc) × (lookup doc_id st'.docs ≡ some doc')
          × (find? (same_conflict id) doc'.conflicts ≡ none))
      × (lookup (base_key doc_id p.agent_id) st'.bases ≡ some text)
  Settlement doc p st st' (contested version text cs id') =
      Entitled is_orchestrator human p
      × (merge3 p.theirs chosen doc.content ≡ conflicted cs)
      × Kept doc_id doc st'
      × ((doc' : SharedDoc) × (q : PendingConflict) × (lookup doc_id st'.docs ≡ some doc')
          × In q doc'.conflicts
          × (q.id ≡ p.id)
          × (q.ours ≡ chosen)
          × (q.theirs ≡ doc.content))
  Settlement doc p st st' (foreign owner) =
      (is_orchestrator ≡ false) × (p.human_id ≢ some human) × (owner ≡ p.human_id) × (st' ≡ st)
  Settlement doc p st st' not_found = ⊥

module _ (uuid : ℕ → Text) (now : ℕ) (doc_id : Text) (id : ConflictId) (human chosen : Text)
    (is_orchestrator : Bool) where
  settle_effect :
      (doc : SharedDoc) (p : PendingConflict) (next : Text) (hunks : ℕ) (st : Store)
      → Entitled is_orchestrator human p
      → merge3 p.theirs chosen doc.content ≡ merged next hunks
      → (st' : Store) × (settle uuid now doc_id id human chosen doc p next st
          ≡ some (st', settled (doc.version + 1) next))
        × Settlement doc_id id human chosen is_orchestrator doc p st st'
            (settled (doc.version + 1) next)
  unfolding settle
  settle_effect doc p next hunks st may e =
      let (u, f, n) = attribute_change-total uuid now doc (some human) none next st.drawn in
      let stands =
        lookup-insert_self doc_id (settled_doc uuid now doc_id id human chosen doc next u st.drawn)
          st.docs in
      rw (f, settle)
        (
          _,
          refl,
          (
            refl,
            may,
            (hunks, e),
            (_, stands, refl, refl, n),
            (_, stands, find?-keep_if (same_conflict id) doc.conflicts),
            lookup-insert_self (base_key doc_id p.agent_id) next st.bases,
          ),
        )

  keep_contested_effect :
      (doc : SharedDoc) (p : PendingConflict) (cs : List MergeConflict) (st : Store)
      → In p doc.conflicts
      → same_conflict id p ≡ true
      → Entitled is_orchestrator human p
      → merge3 p.theirs chosen doc.content ≡ conflicted cs
      → let (st', out) = keep_contested uuid now doc_id id human chosen doc p cs st in
        Settlement doc_id id human chosen is_orchestrator doc p st st' out
  unfolding keep_contested
  keep_contested_effect doc p cs st m same may e =
      let next = renewed uuid now doc_id id human chosen doc p cs in
      let stands =
        lookup-insert_self doc_id
          (record doc { conflicts = replace_conflict id next doc.conflicts }) st.docs in
      (
        may,
        e,
        (_, stands, refl, refl),
        (_, next, stands, replace_conflict-In id next p doc.conflicts m same, refl, refl, refl),
      )

  resolve_pending_effect :
      (doc : SharedDoc) (p : PendingConflict) (st : Store)
      → In p doc.conflicts
      → same_conflict id p ≡ true
      → (st' : Store) × (out : ResolveOutcome) × (resolve_pending uuid now doc_id id human chosen
            is_orchestrator doc p st
          ≡ some (st', out))
        × Settlement doc_id id human chosen is_orchestrator doc p st st' out
  unfolding resolve_pending
  resolve_pending_effect doc p st m same =
      elim (Bool-cases (not is_orchestrator && not (is_owner p.human_id human))) [
        | inl no_right ↦
            rw (no_right, resolve_pending)
              (_, _, refl, (ground arith, not_owner p.human_id human (ground arith), refl, refl))
        | inr right ↦
            let may : Entitled is_orchestrator human p = elim (Bool-cases is_orchestrator) [
              | inl o ↦ inl o
              | inr o ↦ inr (is_owner_iff p.human_id human (ground arith))
            ] in
            elim (result-cases (merge3 p.theirs chosen doc.content)) [
              | inl (next, hunks, e) ↦
                  let (st', f, k) = settle_effect doc p next hunks st may e in
                  rw (right, e, f, resolve_pending) (st', _, refl, k)
              | inr (cs, e) ↦
                  rw (right, e, resolve_pending)
                    (_, _, refl, keep_contested_effect doc p cs st m same may e)
            ]
      ]

  pub found :
      (st : Store) (doc : SharedDoc) (p : PendingConflict)
      → find_pending uuid now doc_id id human chosen st ≡ some (doc, p)
      → (lookup doc_id st.docs ≡ some doc) × (find? (same_conflict id) doc.conflicts ≡ some p)
  found st doc p e = elim (Option-cases (lookup doc_id st.docs)) [
    | inl f ↦ absurd (ground arith)
    | inr (d, f) ↦ elim (Option-cases (find? (same_conflict id) d.conflicts)) [
      | inl g ↦ absurd (ground arith)
      | inr (q, g) ↦
          let pair : SharedDoc × PendingConflict = (d, q) in
          let same : some pair ≡ some (doc, p) = rw (f, g, find_pending) at e in
          let h : d ≡ doc = ground arith in
          let k : q ≡ p = ground arith in
          (
            f ∙ ap some h,
            ap (λ (t : SharedDoc). find? (same_conflict id) t.conflicts) (sym h) ∙ g ∙ ap some k,
          )
    ]
  ]

  -- A settlement always returns: the exception of the attribution is never raised. Without such a
  -- conflict nothing changes. Otherwise it is refused, with no change, for anyone but the
  -- orchestrator and the human who owns the losing edit; it keeps the conflict, against the text
  -- that has landed since, where the choice clashes with that text; and else the choice, merged
  -- with what has landed since, lands one version on, the conflict is gone, and the losing Agent's
  -- next write is merged against the settled text.
  pub resolve_effect :
      (st : Store)
      → let r = resolve uuid now doc_id id human chosen is_orchestrator st in
        ((find_pending uuid now doc_id id human chosen st ≡ none) × (r ≡ some (st, not_found)))
        ⊎ ((doc : SharedDoc) × (p : PendingConflict) × (lookup doc_id st.docs ≡ some doc)
            × In p doc.conflicts
            × (same_conflict id p ≡ true)
            × ((st' : Store) × (out : ResolveOutcome) × (r ≡ some (st', out))
                × Settlement doc_id id human chosen is_orchestrator doc p st st' out))
  unfolding resolve
  resolve_effect st = elim (Option-cases (find_pending uuid now doc_id id human chosen st)) [
    | inl e ↦ inl (e, rw (e, resolve) refl)
    | inr ((doc, p), e) ↦
        let (f, g) = found st doc p e in
        let (m, same) = find?-In (same_conflict id) doc.conflicts p g in
        inr (doc, p, f, m, same, rw (e, resolve) (resolve_pending_effect doc p st m same))
  ]
