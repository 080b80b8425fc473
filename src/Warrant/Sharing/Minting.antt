-- ===== src/Warrant/Sharing/Minting.antt =====
-- Attaching an Agent mints a warrant that the grant bounds, and nothing else mints one.
use please_hire_me.Prelude.{
  ℕ, ◌≡◌, ◌⊎◌, refl, sym, ap, subst, ◌∙◌, inl, inr, true, ◌&&◌, Option, none, some, List, [], ◌∷◌,
  ◌++◌, arith, Bool-cases, Option-cases, In, In-append_cases, Text, codes, text_eq, text_eq_iff,
  lookup, insert, lookup-insert_self, lookup-insert_cases, lookup-insert_new,
}
use please_hire_me.Warrant.Types.{Warrant, ShareGrant}
use please_hire_me.Warrant.Registry.{Registry, issue, new_warrant, warrant_of}
use please_hire_me.Warrant.Registry
use please_hire_me.Warrant.Sharing.{
  Shares, GrantInput, is_live, new_grant, replace_grant, grant, attached, mint_input, attach_agent,
  for_doc_and_grantee,
}
use please_hire_me.Warrant.Sharing.Grants.{Bound, Minted, revoke-Minted}

replace_grant-Minted :
    (now : ℕ) (input : GrantInput) (s : Shares) → Minted s → Minted (replace_grant now input s)
replace_grant-Minted now input s h =
    elim (Option-cases (for_doc_and_grantee now input.doc_id input.grantee_id s)) [
      | inl fresh ↦ rw (fresh, replace_grant) h
      | inr (old, e) ↦ rw (e, replace_grant) (revoke-Minted now old.id _ s h)
    ]

-- A new grant, which withdraws a live one of the same document and grantee, keeps the invariant:
-- every warrant that a grant lists is there, and bound by it.
pub grant-Minted :
    (now : ℕ) (uuid : Text) (input : GrantInput) (s : Shares)
    → Minted s
    → Minted (grant now uuid input s).0
unfolding grant new_grant
grant-Minted now uuid input s h gid g e id m =
    let s' : Shares = replace_grant now input s in
    let new : ShareGrant = new_grant now uuid input in
    elim (lookup-insert_cases new.id gid new g s'.grants e) [
      | inl (_, one) ↦ absurd (subst (λ k. In id k.agent_warrant_ids → ⊥) one (λ k. elim k [ ]) m)
      | inr (_, old) ↦ replace_grant-Minted now input s h gid g old id m
    ]

attached-In :
    (now : ℕ) (agent : Text) (ids : List Text) (r : Registry) (w : Warrant)
    → attached now agent ids r ≡ some w
    → (id : Text) × In id ids
      × (warrant_of (some id) r ≡ some w)
      × (w.agent_id ≡ agent)
      × (Registry.is_live now w ≡ true)
unfolding attached
attached-In now agent [] r w e = cc
attached-In now agent (i ∷ ids) r w e = elim (Option-cases (warrant_of (some i) r)) [
  | inl gone ↦
      let (id, m, f, a, l) = attached-In now agent ids r w (rw (gone, attached) at e) in
      (id, inr m, f, a, l)
  | inr (v, here) ↦ elim (Bool-cases (text_eq v.agent_id agent && Registry.is_live now v)) [
    | inl hit ↦
        let one : v ≡ w = ground arith in
        (
          i,
          inl refl,
          here ∙ ap {B = Option Warrant} some one,
          ground (arith, text_eq_iff v.agent_id agent),
          ground arith,
        )
    | inr miss ↦
        let (id, m, f, a, l) = attached-In now agent ids r w (ground arith) in (id, inr m, f, a, l)
  ]
]

warrant_of-lookup :
    (id : Text) (r : Registry) (w : Warrant)
    → warrant_of (some id) r ≡ some w
    → lookup id r.warrants ≡ some w
unfolding warrant_of
warrant_of-lookup [] r w e = cc
warrant_of-lookup (c ∷ id) r w e = e

-- What attaching does on a live grant: it finds a warrant, or it issues one.
attach_agent_cases :
    (now : ℕ) (uuid gid agent : Text) (s : Shares) (g : ShareGrant) (w : Warrant)
    → lookup gid s.grants ≡ some g
    → (attach_agent now uuid gid agent s).1 ≡ some w
    → (is_live now g ≡ true)
      × ((attached now agent g.agent_warrant_ids s.registry ≡ some w)
          ⊎ (w ≡ new_warrant now uuid (mint_input agent g)))
unfolding attach_agent issue
attach_agent_cases now uuid gid agent s g w here e =
    let e' = rw (here, attach_agent) at e in
    elim (Bool-cases (is_live now g)) [
      | inl live ↦
          let f = rw (live) at e' in
          elim (Option-cases (attached now agent g.agent_warrant_ids s.registry)) [
            | inl none_w ↦ (live, inr (ground arith))
            | inr (v, found) ↦ (live, inl (ground arith))
          ]
      | inr dead ↦ cc (rw dead at e')
    ]

-- The warrant that attaching returns is the Agent's, live now, and bound by the grant, which is
-- live too.
pub attach_agent-Bound :
    (now : ℕ) (uuid gid agent : Text) (s : Shares) (g : ShareGrant) (w : Warrant)
    → Minted s
    → lookup gid s.grants ≡ some g
    → (attach_agent now uuid gid agent s).1 ≡ some w
    → (w.agent_id ≡ agent) × (Registry.is_live now w ≡ true) × (is_live now g ≡ true) × Bound g w
unfolding new_warrant Registry.is_live is_live
attach_agent-Bound now uuid gid agent s g w h here e =
    let (live, how) = attach_agent_cases now uuid gid agent s g w here e in
    elim how [
      | inl found ↦
          let (id, m, f, a, l) = attached-In now agent g.agent_warrant_ids s.registry w found in
          let (v, k, b) = h gid g here id m in
          let same : v ≡ w = cc (k, warrant_of-lookup id s.registry w f) in
          (a, l, live, subst (Bound g) same b)
      | inr new ↦ rw new (
        refl,
        ground arith,
        live,
        record { holder = refl; scopes = refl; resources = refl; ends = refl; granter = refl },
      )
    ]

abbrev listed : ShareGrant → Text → ShareGrant
listed g id = record g { agent_warrant_ids = g.agent_warrant_ids ++ id ∷ [] }

Bound-listed : (g : ShareGrant) (id : Text) (w : Warrant) → Bound g w → Bound (listed g id) w
Bound-listed g id w b = record {
  holder = b.holder;
  scopes = b.scopes;
  resources = b.resources;
  ends = b.ends;
  granter = b.granter;
}

mint-Minted :
    (now : ℕ) (uuid gid agent : Text) (s : Shares) (g : ShareGrant)
    → lookup (codes "wrt_" ++ uuid) s.registry.warrants ≡ none
    → lookup gid s.grants ≡ some g
    → Minted s
    → let (r, w) = issue now uuid (mint_input agent g) s.registry in
      Minted (record { registry = r; grants = insert gid (listed g w.id) s.grants })
unfolding issue new_warrant
mint-Minted now uuid gid agent s g new here h gid' g' e id m =
    let ws = s.registry.warrants in
    let wid : Text = codes "wrt_" ++ uuid in
    let w : Warrant = new_warrant now uuid (mint_input agent g) in
    elim (lookup-insert_cases gid gid' (listed g wid) g' s.grants e) [
      | inl (_, one) ↦
          let m' : In id (g.agent_warrant_ids ++ wid ∷ []) =
            subst (In id) (ap ShareGrant.agent_warrant_ids (sym one)) m in
          elim (In-append_cases id g.agent_warrant_ids (wid ∷ []) m') [
            | inl old ↦
                let (v, f, b) = h gid g here id old in
                (
                  v,
                  lookup-insert_new wid id w v ws new f,
                  subst (λ k. Bound k v) one (Bound-listed g wid v b),
                )
            | inr (inl same) ↦ (
              w,
              rw same (lookup-insert_self wid w ws),
              subst (λ k. Bound k w) one
                  (record {
                    holder = refl;
                    scopes = refl;
                    resources = refl;
                    ends = refl;
                    granter = refl;
                  }),
            )
            | inr (inr k) ↦ elim k [ ]
          ]
      | inr (_, old) ↦
          let (v, f, b) = h gid' g' old id m in (v, lookup-insert_new wid id w v ws new f, b)
    ]

-- Attaching an Agent keeps the invariant, that every warrant a grant lists is there and bound by
-- it, if the identifier that would be drawn for the warrant is new.
pub attach_agent-Minted :
    (now : ℕ) (uuid gid agent : Text) (s : Shares)
    → lookup (codes "wrt_" ++ uuid) s.registry.warrants ≡ none
    → Minted s
    → Minted (attach_agent now uuid gid agent s).0
unfolding attach_agent issue new_warrant
attach_agent-Minted now uuid gid agent s new h = elim (Option-cases (lookup gid s.grants)) [
  | inl gone ↦ rw (gone, attach_agent) h
  | inr (g, here) ↦
      rw (here, attach_agent)
        (elim (Bool-cases (is_live now g)) [
          | inr dead ↦ rw dead h
          | inl live ↦
              rw live (elim (Option-cases (attached now agent g.agent_warrant_ids s.registry)) [
                | inr (v, found) ↦ rw (found) h
                | inl none_w ↦ rw (none_w) (mint-Minted now uuid gid agent s g new here h)
              ])
        ])
]
