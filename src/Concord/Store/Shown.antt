-- ===== src/Concord/Store/Shown.antt =====
-- Presence is recent, and a conflict is shown to those who may settle it.
use please_hire_me.Prelude.{
  ◌≡◌, ◌↔◌, refl, subst, inl, inr, Bool, true, false, ◌||◌, Option, none, some, List, [], ◌∷◌,
  arith, In, In-append_left, In-append_right, In-append_cases, keep_if-In, In-keep_if, Text,
  text_eq_iff, values,
}
use please_hire_me.Concord.Store.State.{Store, SharedDoc, PendingConflict}
use please_hire_me.Concord.Store.Resolve.{is_owner}
use please_hire_me.Concord.Store.Settling.{Entitled, is_owner_iff}
use please_hire_me.Concord.Store.Views.{all_conflicts, conflicts_for}

all_conflicts-In :
    (p : PendingConflict) (docs : List SharedDoc)
    → In p (all_conflicts docs) ↔ ((doc : SharedDoc) × In doc docs × In p doc.conflicts)
unfolding all_conflicts
all_conflicts-In p [] = (λ m. elim m [ ], λ h. elim h.1 [ ])
all_conflicts-In p (d ∷ docs) =
    let (to, from) = all_conflicts-In p docs in
    (
      λ m. elim (In-append_cases p d.conflicts (all_conflicts docs) m) [
        | inl here ↦ (d, inl refl, here)
        | inr there ↦ let (doc, i, k) = to there in (doc, inr i, k)
      ],
      λ h. elim h.1 [
        | inl e ↦
            In-append_left p d.conflicts (all_conflicts docs)
              (subst (λ (t : SharedDoc). In p t.conflicts) e h.2)
        | inr i ↦ In-append_right p d.conflicts (all_conflicts docs) (from (h.0, i, h.2))
      ],
    )

owner_is : (owner : Option Text) (human : Text) → owner ≡ some human → is_owner owner human ≡ true
owner_is none human e = cc
owner_is (some o) human e = ground (arith, text_eq_iff o human)

Entitled-iff :
    (is_orchestrator : Bool) (human : Text) (p : PendingConflict)
    → ((is_orchestrator || is_owner p.human_id human) ≡ true) ↔ Entitled is_orchestrator human p
Entitled-iff true human p = (λ e. inl refl, λ h. refl)
Entitled-iff false human p = (
  λ e. inr (is_owner_iff p.human_id human e),
  λ h. elim h [ inl e ↦ cc | inr e ↦ owner_is p.human_id human e ],
)

-- The conflicts shown to a person are exactly the open conflicts of the documents that the person
-- may settle.
pub conflicts_for_iff :
    (human : Text) (is_orchestrator : Bool) (st : Store) (p : PendingConflict)
    → In p (conflicts_for human is_orchestrator st) ↔ (
        ((doc : SharedDoc) × In doc (values st.docs) × In p doc.conflicts)
        × Entitled is_orchestrator human p)
unfolding conflicts_for
conflicts_for_iff human is_orchestrator st p =
    let shown = λ (q : PendingConflict). is_orchestrator || is_owner q.human_id human in
    let docs = values st.docs in
    (
      λ m.
          let (i, e) = keep_if-In shown (all_conflicts docs) p m in
          ((all_conflicts-In p docs).0 i, (Entitled-iff is_orchestrator human p).0 e),
      λ h.
          In-keep_if shown (all_conflicts docs) p ((all_conflicts-In p docs).1 h.0)
            ((Entitled-iff is_orchestrator human p).1 h.1),
    )
