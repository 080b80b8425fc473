-- ===== src/Aegis/Isolation/Reach.antt =====
-- What a container that passes the check can reach.
use please_hire_me.Prelude.{
  ◌≡◌, refl, sym, ap, subst, ◌∙◌, ◌≢◌, both_true, ◌⊎◌, ◌↔◌, inl, inr, true, not, none, some, List,
  [], ◌∷◌, ◌++◌, arith, Bool-cases, Option-cases, keep_if, find?, In, Text, text_eq, text_eq_iff,
  starts_with_iff,
}
use please_hire_me.Aegis.Isolation.{
  MountSpec, WorkspaceIsolationOptions, strip_end, is_ancestor_of, is_workspace, exposed_sibling,
  reaches_parent, check_mount, check_mounts, check_workspace, assert_mounts,
  assert_workspace_isolation, bind_mounts_in,
}

none-some {ℓ} : {A : Type ℓ} {a : A} → none ≢ some a
none-some e = ground arith

abbrev first_source : List MountSpec → Text
first_source [] = []
first_source (m ∷ ms) = m.src

-- The same directory, or one that lies beneath it.
abbrev pub AtOrBeneath : Text → Text → Type 0
AtOrBeneath a d =
    (strip_end d ≡ strip_end a) ⊎ ((r : Text) × (strip_end d ≡ (strip_end a ++ b'/' ∷ []) ++ r))

is_ancestor_of_iff : (a d : Text) → (is_ancestor_of a d ≡ true) ↔ AtOrBeneath a d
unfolding is_ancestor_of
is_ancestor_of_iff a d = (
  λ e. elim (Bool-cases (text_eq (strip_end d) (strip_end a))) [
    | inl same ↦ inl ((text_eq_iff (strip_end d) (strip_end a)).0 same)
    | inr other ↦ inr ((starts_with_iff (strip_end a ++ b'/' ∷ []) (strip_end d)).0 (ground arith))
  ],
  λ h. elim h [
    | inl same ↦ ground (arith, (text_eq_iff (strip_end d) (strip_end a)).1 same)
    | inr below ↦ ground (arith, (starts_with_iff (strip_end a ++ b'/' ∷ []) (strip_end d)).1 below)
  ],
)

module _ (options : WorkspaceIsolationOptions) where
  abbrev pub Harmless : MountSpec → Type 0
  Harmless m =
      ((sibling : Text) → In sibling options.sibling_workspaces → ¬ (AtOrBeneath m.src sibling))
      × (AtOrBeneath m.src options.workspace_parent → AtOrBeneath options.allowed_workspace m.src)

  -- One mount stands at /workspace, and it is of the allowed directory; no mount is of a directory at
  -- or above another owner's workspace; and none at or above the directory of all workspaces, but in
  -- the allowed one.
  abbrev pub IsIsolated : List MountSpec → Type 0
  IsIsolated mounts =
      ((m : MountSpec) × ((keep_if is_workspace mounts ≡ m ∷ [])
          × (strip_end m.src ≡ strip_end options.allowed_workspace)))
      × ((m : MountSpec) → In m mounts → Harmless m)

  exposed_sibling_iff :
      (src : Text) (siblings : List Text)
      → (find? (λ (sibling : Text). is_ancestor_of src sibling) siblings ≡ none)
        ↔ ((sibling : Text) → In sibling siblings → ¬ (AtOrBeneath src sibling))
  exposed_sibling_iff src [] = (λ _ s k. elim k [ ], λ _. refl)
  exposed_sibling_iff src (x ∷ xs) = elim (Bool-cases (is_ancestor_of src x)) [
    | inl t ↦
        rw t (
          λ e. absurd (ground arith),
          λ h. absurd (h x (inl refl) ((is_ancestor_of_iff src x).0 t)),
        )
    | inr f ↦ rw f (
      λ e s k a. elim k [
        | inl same ↦
            let t = (is_ancestor_of_iff src x).1 (subst (λ u. AtOrBeneath src u) same a) in
            absurd (ground arith)
        | inr m ↦ (exposed_sibling_iff src xs).0 e s m a
      ],
      λ h. (exposed_sibling_iff src xs).1 (λ s m. h s (inr m)),
    )
  ]

  check_mount_iff : (m : MountSpec) → (check_mount options m ≡ none) ↔ Harmless m
  unfolding check_mount
  check_mount_iff m = elim (Option-cases (exposed_sibling options m.src)) [
    | inl n ↦
        let safe = (exposed_sibling_iff m.src options.sibling_workspaces).0 n in
        let above = is_ancestor_of_iff m.src options.workspace_parent in
        let within = is_ancestor_of_iff options.allowed_workspace m.src in
        elim (Bool-cases (reaches_parent options m.src)) [
          | inl t ↦
              let both =
                both_true (is_ancestor_of m.src options.workspace_parent)
                  (not (is_ancestor_of options.allowed_workspace m.src)) t in
              rw (n, t, check_mount)
                (
                  λ e. absurd (ground arith),
                  λ h. let w = within.1 (h.1 (above.0 both.0)) in absurd (ground (arith, both.1)),
                )
          | inr f ↦
              rw (n, f, check_mount)
                (λ _. (safe, λ a. let p = above.1 a in within.0 (ground arith)), λ _. refl)
        ]
    | inr (s, e) ↦
        rw (e, check_mount)
          (
            λ e'. absurd (ground arith),
            λ h.
                let n = (exposed_sibling_iff m.src options.sibling_workspaces).1 h.0 in
                absurd (none-some (sym n ∙ e)),
          )
  ]

  check_mounts_iff :
      (ms : List MountSpec)
      → (check_mounts options ms ≡ none) ↔ ((m : MountSpec) → In m ms → Harmless m)
  unfolding check_mounts
  check_mounts_iff [] = (λ _ m k. elim k [ ], λ _. refl)
  check_mounts_iff (x ∷ xs) = elim (Option-cases (check_mount options x)) [
    | inl n ↦
        rw (n, check_mounts)
          (
            λ e m k. elim k [
              | inl same ↦ subst (λ u. Harmless u) (sym same) ((check_mount_iff x).0 n)
              | inr l ↦ (check_mounts_iff xs).0 e m l
            ],
            λ h. (check_mounts_iff xs).1 (λ m l. h m (inr l)),
          )
    | inr (s, e) ↦
        rw (e, check_mounts)
          (
            λ e'. absurd (none-some (sym e')),
            λ h. absurd (none-some (sym ((check_mount_iff x).1 (h x (inl refl))) ∙ e)),
          )
  ]

  check_workspace_iff :
      (ms : List MountSpec)
      → (check_workspace options ms ≡ none) ↔ (
          (m : MountSpec) × ((ms ≡ m ∷ [])
            × (strip_end m.src ≡ strip_end options.allowed_workspace)))
  unfolding check_workspace
  check_workspace_iff [] = (λ e. absurd (none-some (sym e)), λ h. absurd (ground (arith, h.1.0)))
  check_workspace_iff (m ∷ []) =
      elim (Bool-cases (text_eq (strip_end m.src) (strip_end options.allowed_workspace))) [
        | inl t ↦ rw t (
          λ _. (
            m,
            (refl, (text_eq_iff (strip_end m.src) (strip_end options.allowed_workspace)).0 t),
          ),
          λ _. refl,
        )
        | inr f ↦ rw f (
          λ e. absurd (none-some (sym e)),
          λ h.
              let same = ap (λ ms. strip_end (first_source ms)) h.1.0 ∙ h.1.1 in
              let t =
                (text_eq_iff (strip_end m.src) (strip_end options.allowed_workspace)).1 same in
              absurd (ground arith),
        )
      ]
  check_workspace_iff (m ∷ n ∷ ms) =
      (λ e. absurd (none-some (sym e)), λ h. absurd (ground (arith, h.1.0)))

  assert_mounts_iff :
      (mounts : List MountSpec) → (assert_mounts options mounts ≡ none) ↔ IsIsolated mounts
  unfolding assert_mounts
  assert_mounts_iff mounts =
      elim (Option-cases (check_workspace options (keep_if is_workspace mounts))) [
        | inl n ↦
            rw (n, assert_mounts)
              (
                λ e. (
                  (check_workspace_iff (keep_if is_workspace mounts)).0 n,
                  (check_mounts_iff mounts).0 e,
                ),
                λ h. (check_mounts_iff mounts).1 h.1,
              )
        | inr (s, e) ↦
            rw (e, assert_mounts)
              (
                λ e'. absurd (none-some (sym e')),
                λ h. absurd (
                    none-some
                      (sym ((check_workspace_iff (keep_if is_workspace mounts)).1 h.0) ∙ e)),
              )
      ]

-- The check raises no error exactly for an isolated container: one mount stands at /workspace and is
-- of the allowed directory; no mount is of a directory at or above another owner's workspace; and one
-- at or above the directory of all workspaces lies in the allowed one.
pub assert_workspace_isolation_iff :
    (args : List Text) (options : WorkspaceIsolationOptions)
    → (assert_workspace_isolation args options ≡ none) ↔ IsIsolated options (bind_mounts_in args)
unfolding assert_workspace_isolation
assert_workspace_isolation_iff args options = assert_mounts_iff options (bind_mounts_in args)
