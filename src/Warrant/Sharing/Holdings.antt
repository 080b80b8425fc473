-- ===== src/Warrant/Sharing/Holdings.antt =====
-- A human can share only what live warrants of theirs carry.
use please_hire_me.Prelude.{
  ℕ, ◌≡◌, ◌≢◌, ◌↔◌, ◌⊎◌, refl, sym, ap, subst, ◌∙◌, inl, inr, true, not, ◌&&◌, none, List, [], ◌∷◌,
  ◌++◌, arith, Bool-cases, all, is_none, ltb, keep_if, length, In, In-append_cases, In-append_left,
  In-append_right, keep_if-In, In-keep_if, Text, text_eq, text_eq_iff, lookup, values,
}
use please_hire_me.Concord.DocResource.{doc_resource}
use please_hire_me.Warrant.Types.{Warrant, WarrantScope, ShareRole, has_scope, scopes_for_role}
use please_hire_me.Warrant.Scopes.{has_scope-In, In-has_scope}
use please_hire_me.Warrant.Registry.{Registry, live_warrants_for_human}
use please_hire_me.Warrant.Registry
use please_hire_me.Warrant.Sharing.{
  add_scopes, covers_some, collect_scopes, held_scopes, holds_role_scopes, can_share,
}

add_scopes-In :
    (s : WarrantScope) (scopes held : List WarrantScope)
    → In s (add_scopes scopes held) ↔ (In s scopes ⊎ In s held)
unfolding add_scopes
add_scopes-In s [] held = (λ m. inr m, λ m. elim m [ inl k ↦ elim k [ ] | inr k ↦ k ])
add_scopes-In s (t ∷ ts) held = elim (Bool-cases (has_scope t held)) [
  | inl old ↦
      let (to, from) = add_scopes-In s ts held in
      rw old (
        λ m. elim (to m) [ inl k ↦ inl (inr k) | inr k ↦ inr k ],
        λ m. elim m [
          | inl (inl e) ↦ from (inr (subst (λ u. In u held) (sym e) (has_scope-In t held old)))
          | inl (inr k) ↦ from (inl k)
          | inr k ↦ from (inr k)
        ],
      )
  | inr new ↦
      let (to, from) = add_scopes-In s ts (held ++ t ∷ []) in
      rw new (
        λ m. elim (to m) [
          | inl k ↦ inl (inr k)
          | inr k ↦ elim (In-append_cases s held (t ∷ []) k) [
            | inl a ↦ inr a
            | inr (inl e) ↦ inl (inl e)
            | inr (inr n) ↦ elim n [ ]
          ]
        ],
        λ m. elim m [
          | inl (inl e) ↦ from (inr (In-append_right s held (t ∷ []) (inl e)))
          | inl (inr k) ↦ from (inl k)
          | inr k ↦ from (inr (In-append_left s held (t ∷ []) k))
        ],
      )
]

-- A warrant among these covers the resource and carries the scope.
abbrev pub Carried : Text → List Warrant → WarrantScope → Type 0
Carried resource ws s = (w : Warrant) × In w ws × (covers_some resource w ≡ true) × In s w.scopes

collect_scopes-In :
    (resource : Text) (s : WarrantScope) (ws : List Warrant) (held : List WarrantScope)
    → In s (collect_scopes resource ws held) ↔ (Carried resource ws s ⊎ In s held)
unfolding collect_scopes
collect_scopes-In resource s [] held =
    (λ m. inr m, λ m. elim m [ inl (w, k, c, i) ↦ elim k [ ] | inr k ↦ k ])
collect_scopes-In resource s (v ∷ vs) held = elim (Bool-cases (covers_some resource v)) [
  | inl hit ↦
      let (to, from) = collect_scopes-In resource s vs (add_scopes v.scopes held) in
      let (there, back) = add_scopes-In s v.scopes held in
      rw hit (
        λ m. elim (to m) [
          | inl (w, k, c, i) ↦ inl (w, inr k, c, i)
          | inr k ↦ elim (there k) [ inl i ↦ inl (v, inl refl, hit, i) | inr h ↦ inr h ]
        ],
        λ m. elim m [
          | inl (w, inl e, c, i) ↦ from (inr (back (inl (subst (λ u. In s u.scopes) e i))))
          | inl (w, inr k, c, i) ↦ from (inl (w, k, c, i))
          | inr h ↦ from (inr (back (inr h)))
        ],
      )
  | inr miss ↦
      let (to, from) = collect_scopes-In resource s vs held in
      rw miss (
        λ m. elim (to m) [ inl (w, k, c, i) ↦ inl (w, inr k, c, i) | inr h ↦ inr h ],
        λ m. elim m [
          | inl (w, inl e, c, i) ↦ cc (sym c ∙ ap (covers_some resource) e ∙ miss)
          | inl (w, inr k, c, i) ↦ from (inl (w, k, c, i))
          | inr h ↦ from (inr h)
        ],
      )
]

-- A live warrant of this human covers the document and carries the scope.
abbrev pub Holds : ℕ → Registry → Text → Text → WarrantScope → Type 0
Holds now r human_id doc_id s =
    (w : Warrant) × In w (values r.warrants)
    × (w.human_id ≡ human_id)
    × (Registry.is_live now w ≡ true)
    × (covers_some (doc_resource doc_id) w ≡ true)
    × In s w.scopes

held_scopes-Holds :
    (now : ℕ) (r : Registry) (human doc : Text) (s : WarrantScope)
    → In s (held_scopes now r human doc)
    → Holds now r human doc s
unfolding held_scopes live_warrants_for_human
held_scopes-Holds now r human doc s m =
    elim ((collect_scopes-In (doc_resource doc) s (live_warrants_for_human now human r) []).0 m) [
      | inl (w, k, c, i) ↦
          let (there, both) =
            keep_if-In (λ w. text_eq w.human_id human && Registry.is_live now w) (values r.warrants)
              w k in
          (w, there, ground (arith, text_eq_iff w.human_id human), ground arith, c, i)
      | inr k ↦ elim k [ ]
    ]

Holds-held_scopes :
    (now : ℕ) (r : Registry) (human doc : Text) (s : WarrantScope)
    → Holds now r human doc s
    → In s (held_scopes now r human doc)
unfolding held_scopes live_warrants_for_human
Holds-held_scopes now r human doc s (w, there, own, live, c, i) =
    (collect_scopes-In (doc_resource doc) s (live_warrants_for_human now human r) []).1 (
      inl (
        w,
        In-keep_if (λ w. text_eq w.human_id human && Registry.is_live now w) (values r.warrants) w
            there (ground (arith, text_eq_iff w.human_id human)),
        c,
        i,
      ))

-- A human's held scopes on a document are exactly those that a live warrant of theirs, one that
-- covers the document, carries.
pub held_scopes_iff :
    (now : ℕ) (r : Registry) (human doc : Text) (s : WarrantScope)
    → In s (held_scopes now r human doc) ↔ Holds now r human doc s
held_scopes_iff now r human doc s =
    (held_scopes-Holds now r human doc s, Holds-held_scopes now r human doc s)

all-has_scope :
    (held scopes : List WarrantScope)
    → all (λ s. has_scope s held) scopes ≡ true
    → (s : WarrantScope) → In s scopes
    → In s held
all-has_scope held [] e s m = elim m [ ]
all-has_scope held (t ∷ ts) e s (inl same) =
    let h : has_scope t held ≡ true = ground arith in
    subst (λ u. In u held) (sym same) (has_scope-In t held h)
all-has_scope held (t ∷ ts) e s (inr m) = all-has_scope held ts (ground arith) s m

has_scope-all :
    (held scopes : List WarrantScope)
    → ((s : WarrantScope) → In s scopes → In s held)
    → all (λ s. has_scope s held) scopes ≡ true
has_scope-all held [] h = refl
has_scope-all held (t ∷ ts) h =
    rw (In-has_scope t held (h t (inl refl))) (has_scope-all held ts (λ s m. h s (inr m)))

-- No scope is missing exactly when all are held.
missing-all :
    (held scopes : List WarrantScope)
    → ltb 0 (length (keep_if (λ s. not (has_scope s held)) scopes))
      ≡ not (all (λ s. has_scope s held) scopes)
missing-all held [] = refl
missing-all held (t ∷ ts) = ground (arith, missing-all held ts)

-- What a share needs: someone else, who is known, and live warrants of the granter's own for
-- writing and for every scope of the role.
abbrev pub MayShare : ℕ → Registry → Text → Text → Text → ShareRole → Type 0
MayShare now r granter grantee doc role =
    (granter ≢ grantee)
    × (lookup grantee r.humans ≢ none)
    × Holds now r granter doc WarrantScope.workspace_write
    × ((s : WarrantScope) → In s (scopes_for_role role) → Holds now r granter doc s)

pub can_share-tests :
    (now : ℕ) (r : Registry) (granter grantee doc : Text) (role : ShareRole)
    → (can_share now r granter grantee doc role).allowed ≡ (
        not (text_eq granter grantee)
        && not (is_none (lookup grantee r.humans))
        && has_scope WarrantScope.workspace_write (held_scopes now r granter doc)
        && holds_role_scopes (held_scopes now r granter doc) role)
unfolding can_share
can_share-tests now r granter grantee doc role =
    ground (arith, missing-all (held_scopes now r granter doc) (scopes_for_role role))

-- Sharing is allowed exactly if the grantee is someone else, who is known, and live warrants of the
-- granter's own carry writing and every scope of the role on the document.
pub can_share_iff :
    (now : ℕ) (r : Registry) (granter grantee doc : Text) (role : ShareRole)
    → ((can_share now r granter grantee doc role).allowed ≡ true)
      ↔ MayShare now r granter grantee doc role
can_share_iff now r granter grantee doc role =
    let held : List WarrantScope = held_scopes now r granter doc in
    let tests = can_share-tests now r granter grantee doc role in
    (
      λ e.
          let write : has_scope WarrantScope.workspace_write held ≡ true = ground arith in
          let each : holds_role_scopes held role ≡ true = ground arith in
          (
            λ same. ground (arith, text_eq_iff granter grantee),
            λ none_h. ground arith,
            (held_scopes_iff now r granter doc WarrantScope.workspace_write).0
                (has_scope-In WarrantScope.workspace_write held write),
            λ s m.
                (held_scopes_iff now r granter doc s).0
                  (all-has_scope held (scopes_for_role role) each s m),
          ),
      λ (other, known, write, each).
          let w =
            In-has_scope WarrantScope.workspace_write held
              ((held_scopes_iff now r granter doc WarrantScope.workspace_write).1 write) in
          let a =
            has_scope-all held (scopes_for_role role)
              (λ s m. (held_scopes_iff now r granter doc s).1 (each s m)) in
          ground (arith, text_eq_iff granter grantee),
    )
