-- ===== src/Concord/Store/Soundness.antt =====
-- Open conflicts stay apart, and documents stay sound when they are put back.
use please_hire_me.Prelude.{
  ℕ, suc, ◌≡◌, ◌≤◌, refl, sym, ap, subst, ◌∙◌, inl, inr, Bool, true, false, not, Option, none, some,
  List, [], ◌∷◌, ◌++◌, arith, Bool-cases, Option-cases, All, All-append, keep_if, find?, Text,
  text_eq, text_eq_iff, Assoc, lookup, insert, lookup-insert_cases, if◌then◌else◌, leb, ==_iff,
}
use please_hire_me.Concord.Store.State.{
  Store, SharedDoc, Lease, PendingConflict, ConflictId, ensure, reap_lease,
}
use please_hire_me.Concord.Store.Write.{entered}
use please_hire_me.Concord.Store.Resolve.{same_conflict, replace_conflict}
use please_hire_me.Concord.Store.Runs.{Apart, Pairwise, IsNumbered, SoundDoc, SoundDocs}

keep_if-All :
    (P : PendingConflict → Type 0) (f : PendingConflict → Bool) (ps : List PendingConflict)
    → All P ps
    → All P (keep_if f ps)
keep_if-All P f [] a = tt
keep_if-All P f (p ∷ ps) (h, a) = elim (Bool-cases (f p)) [
  | inl e ↦ rw e (h, keep_if-All P f ps a)
  | inr e ↦ rw e (keep_if-All P f ps a)
]

pub keep_if-Pairwise :
    (f : PendingConflict → Bool) (ps : List PendingConflict) → Pairwise ps → Pairwise (keep_if f ps)
keep_if-Pairwise f [] a = tt
keep_if-Pairwise f (p ∷ ps) (h, a) = elim (Bool-cases (f p)) [
  | inl e ↦ rw e (keep_if-All (Apart p) f ps h, keep_if-Pairwise f ps a)
  | inr e ↦ rw e (keep_if-Pairwise f ps a)
]

pub keep_if-IsNumbered :
    (n : ℕ) (f : PendingConflict → Bool) (ps : List PendingConflict)
    → All (IsNumbered n) ps
    → All (IsNumbered n) (keep_if f ps)
keep_if-IsNumbered n f ps a = keep_if-All (IsNumbered n) f ps a

IsNumbered-suc :
    (n : ℕ) (ps : List PendingConflict) → All (IsNumbered n) ps → All (IsNumbered (suc n)) ps
IsNumbered-suc n [] a = tt
IsNumbered-suc n (p ∷ ps) (h, a) = (omega arith, IsNumbered-suc n ps a)

-- Another conflict is added at the end.
append-Pairwise :
    (p : PendingConflict) (ps : List PendingConflict)
    → Pairwise ps
    → All (λ (q : PendingConflict). Apart q p) ps
    → Pairwise (ps ++ p ∷ [])
append-Pairwise p [] a b = (tt, tt)
append-Pairwise p (q ∷ ps) (h, a) (k, b) =
    (All-append (Apart q) ps (p ∷ []) h (k, tt), append-Pairwise p ps a b)

others-Apart :
    (n : ℕ) (p : PendingConflict) (ps : List PendingConflict)
    → p.id.seq ≡ suc n
    → All (IsNumbered n) ps
    → All
        (λ (q : PendingConflict). Apart q p)
        (keep_if (λ (q : PendingConflict). not (text_eq q.agent_id p.agent_id)) ps)
others-Apart n p [] e a = tt
others-Apart n p (q ∷ ps) e (h, a) = elim (Bool-cases (text_eq q.agent_id p.agent_id)) [
  | inl same ↦ rw same (others-Apart n p ps e a)
  | inr other ↦ rw other (
    (ground (arith, text_eq_iff q.agent_id p.agent_id), λ s. omega arith),
    others-Apart n p ps e a,
  )
]

-- A conflict with the next number replaces those of its Agent.
pub supersede-Pairwise :
    (n : ℕ) (p : PendingConflict) (ps : List PendingConflict)
    → p.id.seq ≡ suc n
    → Pairwise ps
    → All (IsNumbered n) ps
    → let others = keep_if (λ (q : PendingConflict). not (text_eq q.agent_id p.agent_id)) ps in
      Pairwise (others ++ p ∷ []) × All (IsNumbered (suc n)) (others ++ p ∷ [])
supersede-Pairwise n p ps e a b =
    let keep = λ (q : PendingConflict). not (text_eq q.agent_id p.agent_id) in
    (
      append-Pairwise p (keep_if keep ps) (keep_if-Pairwise keep ps a) (others-Apart n p ps e b),
      All-append (IsNumbered (suc n)) (keep_if keep ps) (p ∷ [])
          (IsNumbered-suc n (keep_if keep ps) (keep_if-All (IsNumbered n) keep ps b))
          (omega arith, tt),
    )

replace_conflict-All :
    (P : PendingConflict → Type 0) (id : ConflictId) (next : PendingConflict)
    (ps : List PendingConflict)
    → P next
    → All P ps
    → All P (replace_conflict id next ps)
unfolding replace_conflict
replace_conflict-All P id next [] k a = tt
replace_conflict-All P id next (p ∷ ps) k (h, a) = (
  elim (Bool-cases (same_conflict id p)) [ inl e ↦ rw e k | inr e ↦ rw e h ],
  replace_conflict-All P id next ps k a,
)

replace_conflict_none :
    (id : ConflictId) (next p : PendingConflict) (ps : List PendingConflict)
    → same_conflict id p ≡ true
    → All (Apart p) ps
    → replace_conflict id next ps ≡ ps
unfolding replace_conflict
replace_conflict_none id next p [] e a = refl
replace_conflict_none id next p (q ∷ ps) e (h, a) =
    let miss : same_conflict id q ≡ false =
      ground (arith, h.1, ==_iff p.id.seq id.seq, ==_iff q.id.seq id.seq) in
    rw (miss) (ap (λ t. q ∷ t) (replace_conflict_none id next p ps e a))

find?-All :
    (P : PendingConflict → Type 0) (f : PendingConflict → Bool) (p : PendingConflict)
    (ps : List PendingConflict)
    → find? f ps ≡ some p
    → All P ps
    → P p
find?-All P f p [] e a = cc
find?-All P f p (q ∷ ps) e (h, a) = elim (Bool-cases (f q)) [
  | inl b ↦ let g : some q ≡ some p = rw b at e in let k : q ≡ p = cc in subst P k h
  | inr b ↦ find?-All P f p ps (rw b at e) a
]

as-Apart :
    (p next : PendingConflict) (ps : List PendingConflict)
    → next.agent_id ≡ p.agent_id
    → next.id.seq ≡ p.id.seq
    → All (Apart p) ps
    → All (Apart next) ps
as-Apart p next [] e f a = tt
as-Apart p next (q ∷ ps) e f ((h, k), a) =
    ((λ s. h (sym e ∙ s), λ s. k (sym f ∙ s)), as-Apart p next ps e f a)

-- A conflict is renewed in its place.
pub replace_conflict-Pairwise :
    (id : ConflictId) (next p : PendingConflict) (ps : List PendingConflict)
    → find? (same_conflict id) ps ≡ some p
    → next.agent_id ≡ p.agent_id
    → next.id.seq ≡ p.id.seq
    → Pairwise ps
    → Pairwise (replace_conflict id next ps)
unfolding replace_conflict
replace_conflict-Pairwise id next p [] e f g a = tt
replace_conflict-Pairwise id next p (q ∷ ps) e f g (h, a) = elim (Bool-cases (same_conflict id q)) [
  | inl b ↦
      let s : some q ≡ some p = rw b at e in
      let k : q ≡ p = cc in
      let rest : All (Apart next) ps =
        as-Apart q next ps (f ∙ ap PendingConflict.agent_id (sym k))
          (g ∙ ap (λ (t : PendingConflict). t.id.seq) (sym k)) h in
      rw (b, replace_conflict_none id next q ps b h) (rest, a)
  | inr b ↦
      let s : find? (same_conflict id) ps ≡ some p = rw b at e in
      let (x, y) = find?-All (Apart q) (same_conflict id) p ps s h in
      rw b (
        replace_conflict-All (Apart q) id next ps ((λ t. x (t ∙ f)), (λ t. y (t ∙ g))) h,
        replace_conflict-Pairwise id next p ps s f g a,
      )
]

pub replace_conflict-IsNumbered :
    (n : ℕ) (id : ConflictId) (next p : PendingConflict) (ps : List PendingConflict)
    → find? (same_conflict id) ps ≡ some p
    → next.id.seq ≡ p.id.seq
    → All (IsNumbered n) ps
    → All (IsNumbered n) (replace_conflict id next ps)
replace_conflict-IsNumbered n id next p ps e g a =
    let h : p.id.seq ≤ n = find?-All (IsNumbered n) (same_conflict id) p ps e a in
    replace_conflict-All (IsNumbered n) id next ps (omega arith) a

pub insert-SoundDocs :
    (n : ℕ) (id : Text) (d : SharedDoc) (docs : Assoc SharedDoc)
    → SoundDocs n docs
    → SoundDoc n d
    → SoundDocs n (insert id d docs)
insert-SoundDocs n id d docs s h j doc e = elim (lookup-insert_cases id j d doc docs e) [
  | inl (_, same) ↦ subst (SoundDoc n) same h
  | inr (_, f) ↦ s j doc f
]

pub SoundDocs-suc : (n : ℕ) (docs : Assoc SharedDoc) → SoundDocs n docs → SoundDocs (suc n) docs
SoundDocs-suc n docs s j doc e =
    let (one, (apart, low)) = s j doc e in (one, (apart, IsNumbered-suc n doc.conflicts low))

pub ensure-SoundDoc :
    (n now : ℕ) (doc_id : Text) (st : Store)
    → SoundDocs n st.docs
    → SoundDoc n (ensure now doc_id st)
unfolding ensure
ensure-SoundDoc n now doc_id st s = elim (Option-cases (lookup doc_id st.docs)) [
  | inl e ↦ rw (e, ensure) (inr refl, (tt, tt))
  | inr (doc, e) ↦ rw (e, ensure) (s doc_id doc e)
]

reaped-SoundDoc :
    (n now : ℕ) (doc : SharedDoc) (lease : Option Lease)
    → SoundDoc n doc
    → SoundDoc n (elim lease as (λ _. SharedDoc) [
      | none ↦ doc
      | some l ↦ if leb l.expires_at now then record doc { lease = none } else doc
    ])
reaped-SoundDoc n now doc none s = s
reaped-SoundDoc n now doc (some l) s = elim (Bool-cases (leb l.expires_at now)) [
  | inl e ↦ rw e s
  | inr e ↦ rw e s
]

reap_lease-SoundDoc :
    (n now : ℕ) (doc : SharedDoc) → SoundDoc n doc → SoundDoc n (reap_lease now doc)
unfolding reap_lease
reap_lease-SoundDoc n now doc s = reaped-SoundDoc n now doc doc.lease s

pub entered-SoundDoc :
    (n now : ℕ) (doc_id : Text) (st : Store)
    → SoundDocs n st.docs
    → SoundDoc n (entered now doc_id st)
entered-SoundDoc n now doc_id st s =
    reap_lease-SoundDoc n now (ensure now doc_id st) (ensure-SoundDoc n now doc_id st s)
