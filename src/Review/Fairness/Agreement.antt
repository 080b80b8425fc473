-- ===== src/Review/Fairness/Agreement.antt =====
-- An agreement of Agents keeps the comments fair.
use please_hire_me.Prelude.{
  ℕ, ◌≡◌, refl, sym, ap, subst, ◌∙◌, ◌⊎◌, inl, inr, Bool, true, false, not, ◌&&◌, Option, some,
  List, [], ◌∷◌, any, Bool-cases, both_true, Option-cases, truthy, Text, text_eq, text_eq_iff,
  lookup, In-append_left, All-append, lookup-insert_self, lookup-Entries, insert-Entries,
}
use please_hire_me.Concord.Provenance.Responsible.{any-In}
use please_hire_me.Review.Types.{ReviewComment, resolved}
use please_hire_me.Review.State.{Review, put_comment, append, get}
use please_hire_me.Review.Comments.{agreed_comment, has_both, agree, agent_resolve}
use please_hire_me.Review.Fairness.{IsFair, AreFair, set_status-AreFair}

party_test :
    (a b : Bool) → (not a && not b ≡ true) ⊎ ((not a && not b ≡ false) × ((a ≡ true) ⊎ (b ≡ true)))
party_test true b = inr (refl, inl refl)
party_test false true = inr (refl, inr refl)
party_test false false = inl refl

module _ (ids : List Text) where
  agreed_comment-IsFair :
      (k : Text) (now : ℕ) (agent author : Text) (c : ReviewComment)
      → truthy c.created_by_agent_id ≡ some author
      → (agent ≡ author) ⊎ (agent ≡ c.responsible_agent_id)
      → IsFair ids k c
      → IsFair ids k (agreed_comment now agent c)
  agreed_comment-IsFair k now agent author c e party h =
      elim (Bool-cases (any (text_eq agent) c.agent_resolved)) [
        | inl old ↦ record {
          keyed = h.keyed;
          settled = rw old h.settled;
          visible = h.visible;
          parties = rw old h.parties;
        }
        | inr new ↦ record {
          keyed = h.keyed;
          settled = rw new (elim h.settled [
            | inl n ↦ inl n
            | inr (inl (a, f, m, r)) ↦ inr (
                inl (
                  a,
                  f,
                  In-append_left a c.agent_resolved _ m,
                  In-append_left c.responsible_agent_id c.agent_resolved _ r,
                ))
            | inr (inr m) ↦ inr (inr m)
          ]);
          visible = h.visible;
          parties = rw new (
              All-append _ c.agent_resolved (agent ∷ []) h.parties (
                elim party [
                  | inl same ↦ inl (e ∙ ap {B = Option Text} some (sym same))
                  | inr same ↦ inr same
                ],
                _,
              ));
        }
      ]

  -- With both in agreement the comment may be settled.
  settled-IsFair :
      (k : Text) (now : ℕ) (author : Text) (c : ReviewComment)
      → truthy c.created_by_agent_id ≡ some author
      → has_both author c ≡ true
      → IsFair ids k c
      → IsFair ids k (record c { status = resolved; updated_at = now })
  settled-IsFair k now author c e both h =
      let (one, other) =
        both_true (any (text_eq author) c.agent_resolved)
          (any (text_eq c.responsible_agent_id) c.agent_resolved) both in
      record {
        keyed = h.keyed;
        settled = inr (
            inl (
              author,
              e,
              any-In author c.agent_resolved one,
              any-In c.responsible_agent_id c.agent_resolved other,
            ));
        visible = inr _;
        parties = h.parties;
      }

  agree-AreFair :
      (uuid : ℕ → Text) (now : ℕ) (id agent author : Text) (c : ReviewComment) (s : Review)
      → AreFair ids s.comments
      → lookup id s.comments ≡ some c
      → truthy c.created_by_agent_id ≡ some author
      → (agent ≡ author) ⊎ (agent ≡ c.responsible_agent_id)
      → AreFair ids (agree uuid now id agent author c s).0.comments
  unfolding agree append
  agree-AreFair uuid now id agent author c s h f e party =
      let c' = agreed_comment now agent c in
      let fair =
        agreed_comment-IsFair id now agent author c e party
          (lookup-Entries (IsFair ids) id c s.comments h f) in
      let kept = insert-Entries (IsFair ids) id c' s.comments fair h in
      elim (Bool-cases (has_both author c')) [
        | inr one ↦ rw (one, agree) kept
        | inl both ↦
            rw (both, agree)
              (set_status-AreFair ids uuid now id resolved (put_comment id c' s) kept λ d g.
                let same : c' ≡ d = cc (lookup-insert_self id c' s.comments) in
                subst
                  (λ (x : ReviewComment).
                    IsFair ids id (record x { status = resolved; updated_at = now }))
                  same (settled-IsFair id now author c' e both fair))
      ]

  pub agent_resolve-AreFair :
      (uuid : ℕ → Text) (now : ℕ) (id agent : Text) (s : Review)
      → AreFair ids s.comments
      → AreFair ids (agent_resolve uuid now id agent s).0.comments
  unfolding agent_resolve get
  agent_resolve-AreFair uuid now id agent s h = elim (Option-cases (lookup id s.comments)) [
    | inl e ↦ rw (e, agent_resolve) h
    | inr (c, e) ↦ elim (Option-cases (truthy c.created_by_agent_id)) [
      | inl f ↦ rw (e, agent_resolve) (rw (f, agent_resolve) h)
      | inr (author, f) ↦
          rw (e, agent_resolve)
            (rw (f, agent_resolve)
              (elim (party_test (text_eq agent author) (text_eq agent c.responsible_agent_id)) [
                | inl t ↦ rw t h
                | inr (t, party) ↦ rw t (
                    agree-AreFair uuid now id agent author c s h e f (elim party [
                      | inl p ↦ inl ((text_eq_iff agent author).0 p)
                      | inr p ↦ inr ((text_eq_iff agent c.responsible_agent_id).0 p)
                    ]))
              ]))
    ]
  ]
