-- ===== src/Warrant/Sharing/Grants.antt =====
-- What a grant mints is bounded by the grant, and falls with it.
use please_hire_me.Prelude.{
  ℕ, ◌≡◌, sym, ap, subst, ◌∙◌, inl, inr, true, false, some, List, [], ◌∷◌, ◌++◌, arith, Bool-cases,
  Option-cases, is_some, In, Text, codes, text_eq, text_eq_iff, lookup, lookup-insert,
  lookup-insert_self,
}
use please_hire_me.Concord.DocResource.{doc_resource}
use please_hire_me.Warrant.Types.{Warrant, ShareGrant, scopes_for_role}
use please_hire_me.Warrant.Registry.{
  Registry, revoke_by_id, mark_revoked, issue, new_warrant, warrant_of,
}
use please_hire_me.Warrant.Registry
use please_hire_me.Warrant.Sharing.{Shares, is_live, revoke_all, mark_grant, revoke}

-- No warrant with this identifier is unrevoked.
abbrev pub Dead : Text → Registry → Type 0
Dead id r = (w : Warrant) → lookup id r.warrants ≡ some w → is_some w.revoked_at ≡ true

revoke_by_id-Dead_self :
    (now : ℕ) (id reason : Text) (r : Registry) → Dead id (revoke_by_id now id reason r).0
unfolding revoke_by_id
revoke_by_id-Dead_self now id reason r = elim (Option-cases (lookup id r.warrants)) [
  | inl gone ↦ rw (gone, revoke_by_id) (λ w e. cc)
  | inr (v, here) ↦
      rw (here, revoke_by_id)
        (λ w e.
          let m : Warrant = mark_revoked now reason v in
          let same : m ≡ w = cc (lookup-insert_self id m r.warrants) in ground arith)
]

revoke_by_id-Dead :
    (now : ℕ) (id id' reason : Text) (r : Registry)
    → Dead id' r
    → Dead id' (revoke_by_id now id reason r).0
unfolding revoke_by_id
revoke_by_id-Dead now id id' reason r d = elim (Option-cases (lookup id r.warrants)) [
  | inl gone ↦ rw (gone, revoke_by_id) d
  | inr (v, here) ↦
      rw (here, revoke_by_id)
        (λ w e.
          let m : Warrant = mark_revoked now reason v in
          let law = lookup-insert id id' m r.warrants in
          elim (Bool-cases (text_eq id id')) [
            | inl same ↦ ground (arith)
            | inr other ↦ d w (ground arith)
          ])
]

revoke_all-Dead :
    (now : ℕ) (reason : Text) (ids : List Text) (id : Text) (r : Registry)
    → Dead id r
    → Dead id (revoke_all now reason ids r)
unfolding revoke_all
revoke_all-Dead now reason [] id r d = d
revoke_all-Dead now reason (i ∷ ids) id r d =
    revoke_all-Dead now reason ids id _ (revoke_by_id-Dead now i id _ r d)

revoke_all-Dead-In :
    (now : ℕ) (reason : Text) (ids : List Text) (id : Text) (r : Registry)
    → In id ids
    → Dead id (revoke_all now reason ids r)
unfolding revoke_all
revoke_all-Dead-In now reason [] id r m = elim m [ ]
revoke_all-Dead-In now reason (i ∷ ids) id r (inl e) =
    rw e (revoke_all-Dead now reason ids i _ (revoke_by_id-Dead_self now i _ r))
revoke_all-Dead-In now reason (i ∷ ids) id r (inr m) = revoke_all-Dead-In now reason ids id _ m

Dead-is_live :
    (id : Text) (r : Registry) (w : Warrant) (at : ℕ)
    → Dead id r
    → lookup id r.warrants ≡ some w
    → Registry.is_live at w ≡ false
unfolding Registry.is_live
Dead-is_live id r w at d e = ground (arith, d w e)

-- Withdrawing a grant leaves no authority behind: the grant is live at no instant, and neither is a
-- warrant that it minted.
pub revoke_withdraws :
    (now at : ℕ) (grant_id reason : Text) (s : Shares) (g : ShareGrant) (id : Text) (w : Warrant)
    → lookup grant_id s.grants ≡ some g
    → In id g.agent_warrant_ids
    → lookup id (revoke now grant_id reason s).0.registry.warrants ≡ some w
    → ((g' : ShareGrant) × (lookup grant_id (revoke now grant_id reason s).0.grants ≡ some g')
        × (is_live at g' ≡ false))
      × (Registry.is_live at w ≡ false)
unfolding revoke is_live
revoke_withdraws now at grant_id reason s g id w e m f =
    let f' = rw (e, revoke) at f in
    rw (e, revoke)
      (
        (
          mark_grant now reason g,
          lookup-insert_self grant_id (mark_grant now reason g) s.grants,
          ground arith,
        ),
        Dead-is_live id (revoke_all now reason g.agent_warrant_ids s.registry) w at
            (revoke_all-Dead-In now reason g.agent_warrant_ids id s.registry m) f',
      )

-- A warrant that carries what the grant gives and no more: the grantee's, for the role's scopes on
-- the one document, until the grant ends.
pub record Bound (g : ShareGrant) (w : Warrant) : Type 0 where
  pub holder : w.human_id ≡ g.grantee_id
  pub scopes : w.scopes ≡ scopes_for_role g.role
  pub resources : w.resources ≡ doc_resource g.doc_id ∷ []
  pub ends : w.expires_at ≡ g.expires_at
  pub granter : w.granted_by ≡ some g.granted_by

-- A warrant with this identifier is there, and bound by the grant.
abbrev pub BoundId : ShareGrant → Registry → Text → Type 0
BoundId g r id = (w : Warrant) × (lookup id r.warrants ≡ some w) × Bound g w

-- The invariant: every warrant that a grant lists is there, and bound by it.
abbrev pub Minted : Shares → Type 0
Minted s =
    (gid : Text) (g : ShareGrant)
    → lookup gid s.grants ≡ some g
    → (id : Text) → In id g.agent_warrant_ids
    → BoundId g s.registry id

mark_revoked-Bound :
    (g : ShareGrant) (now : ℕ) (reason : Text) (w : Warrant)
    → Bound g w
    → Bound g (mark_revoked now reason w)
mark_revoked-Bound g now reason w b = elim (Bool-cases (is_some w.revoked_at)) [
  | inl old ↦ rw old b
  | inr new ↦ rw new (record {
    holder = b.holder;
    scopes = b.scopes;
    resources = b.resources;
    ends = b.ends;
    granter = b.granter;
  })
]

revoke_by_id-BoundId :
    (g : ShareGrant) (now : ℕ) (id id' reason : Text) (r : Registry)
    → BoundId g r id'
    → BoundId g (revoke_by_id now id reason r).0 id'
unfolding revoke_by_id
revoke_by_id-BoundId g now id id' reason r (w, e, b) = elim (Option-cases (lookup id r.warrants)) [
  | inl gone ↦ rw (gone, revoke_by_id) (w, e, b)
  | inr (v, here) ↦
      rw (here, revoke_by_id)
        (let m : Warrant = mark_revoked now reason v in
          let law = lookup-insert id id' m r.warrants in
          elim (Bool-cases (text_eq id id')) [
            | inl same ↦
                let one : w ≡ v = cc (
                  sym e
                  ∙ ap (λ k. lookup k r.warrants) (sym ((text_eq_iff id id').0 same))
                  ∙ here) in
                (m, ground arith, mark_revoked-Bound g now reason v (subst (Bound g) one b))
            | inr other ↦ (w, ground arith, b)
          ])
]

revoke_all-BoundId :
    (g : ShareGrant) (now : ℕ) (reason : Text) (ids : List Text) (id : Text) (r : Registry)
    → BoundId g r id
    → BoundId g (revoke_all now reason ids r) id
unfolding revoke_all
revoke_all-BoundId g now reason [] id r b = b
revoke_all-BoundId g now reason (i ∷ ids) id r b =
    revoke_all-BoundId g now reason ids id
      (revoke_by_id now i (codes "Share revoked: " ++ reason) r).0
      (revoke_by_id-BoundId g now i id (codes "Share revoked: " ++ reason) r b)

Bound-mark_grant :
    (g : ShareGrant) (now : ℕ) (reason : Text) (w : Warrant)
    → Bound g w
    → Bound (mark_grant now reason g) w
Bound-mark_grant g now reason w b = elim (Bool-cases (is_some g.revoked_at)) [
  | inl old ↦ rw old b
  | inr new ↦ rw new (record {
    holder = b.holder;
    scopes = b.scopes;
    resources = b.resources;
    ends = b.ends;
    granter = b.granter;
  })
]

pub mark_grant-ids :
    (now : ℕ) (reason : Text) (g : ShareGrant)
    → (mark_grant now reason g).agent_warrant_ids ≡ g.agent_warrant_ids
mark_grant-ids now reason g = ground arith

-- Withdrawing a grant keeps the invariant: every warrant that a grant lists is there, and bound by
-- it.
pub revoke-Minted :
    (now : ℕ) (grant_id reason : Text) (s : Shares)
    → Minted s
    → Minted (revoke now grant_id reason s).0
unfolding revoke
revoke-Minted now grant_id reason s h = elim (Option-cases (lookup grant_id s.grants)) [
  | inl gone ↦ rw (gone, revoke) h
  | inr (g, here) ↦
      rw (here, revoke)
        (λ gid g' e id m.
          let law = lookup-insert grant_id gid (mark_grant now reason g) s.grants in
          elim (Bool-cases (text_eq grant_id gid)) [
            | inl same ↦
                let one : mark_grant now reason g ≡ g' = ground arith in
                let m' : In id g.agent_warrant_ids =
                  subst (In id)
                    (ap ShareGrant.agent_warrant_ids (sym one) ∙ mark_grant-ids now reason g) m in
                let (w, f, b) =
                  revoke_all-BoundId g now reason g.agent_warrant_ids id s.registry
                    (h grant_id g here id m') in
                (w, f, subst (λ k. Bound k w) one (Bound-mark_grant g now reason w b))
            | inr other ↦
                revoke_all-BoundId g' now reason g.agent_warrant_ids id s.registry
                  (h gid g' (ground arith) id m)
          ])
]
