-- ===== src/Warrant/Sharing/Roles.antt =====
-- The widest role that a human may share.
use please_hire_me.Prelude.{
  ℕ, ◌<◌, ◌≡◌, ◌≢◌, ◌∙◌, Bool, true, false, none, some, List, [], ◌∷◌, arith, find?, length, Text,
  text_eq_iff, lookup,
}
use please_hire_me.Warrant.Types.{
  WarrantScope, ShareRole, viewer, commenter, editor, has_scope, scopes_for_role,
}
use please_hire_me.Warrant.Registry.{Registry}
use please_hire_me.Warrant.Sharing.{held_scopes, holds_role_scopes, max_shareable_role, can_share}
use please_hire_me.Warrant.Sharing.Holdings.{can_share-tests}

widest :
    (P : ShareRole → Bool) (role : ShareRole)
    → find? P (editor ∷ commenter ∷ viewer ∷ []) ≡ some role
    → (P role ≡ true)
      × ((wider : ShareRole)
          → length (scopes_for_role role) < length (scopes_for_role wider)
          → P wider ≡ false)
unfolding scopes_for_role
widest P role e = (ground arith, λ wider h. wider_not wider role e h)
  where
    wider_not :
        (wider role : ShareRole)
        → find? P (editor ∷ commenter ∷ viewer ∷ []) ≡ some role
        → length (scopes_for_role role) < length (scopes_for_role wider)
        → P wider ≡ false
    wider_not viewer viewer e h = absurd (omega arith)
    wider_not viewer commenter e h = absurd (omega arith)
    wider_not viewer editor e h = absurd (omega arith)
    wider_not commenter viewer e h = ground arith
    wider_not commenter commenter e h = absurd (omega arith)
    wider_not commenter editor e h = absurd (omega arith)
    wider_not editor viewer e h = ground arith
    wider_not editor commenter e h = ground arith
    wider_not editor editor e h = absurd (omega arith)

-- The role that the dialog offers can be shared with any other known human.
pub max_shareable_role-can_share :
    (now : ℕ) (r : Registry) (granter grantee doc : Text) (role : ShareRole)
    → granter ≢ grantee
    → lookup grantee r.humans ≢ none
    → max_shareable_role now r granter doc ≡ some role
    → (can_share now r granter grantee doc role).allowed ≡ true
unfolding max_shareable_role
max_shareable_role-can_share now r granter grantee doc role other known e =
    let held : List WarrantScope = held_scopes now r granter doc in
    let write : has_scope WarrantScope.workspace_write held ≡ true = ground arith in
    let (here, none_wider) = widest (holds_role_scopes held) role (ground arith) in
    can_share-tests now r granter grantee doc role ∙ ground (arith, text_eq_iff granter grantee)

-- The role that the dialog offers is the widest: sharing one of more scopes is refused, whoever the
-- grantee is.
pub max_shareable_role_widest :
    (now : ℕ) (r : Registry) (granter grantee doc : Text) (role wider : ShareRole)
    → max_shareable_role now r granter doc ≡ some role
    → length (scopes_for_role role) < length (scopes_for_role wider)
    → (can_share now r granter grantee doc wider).allowed ≡ false
unfolding max_shareable_role
max_shareable_role_widest now r granter grantee doc role wider e h =
    let held : List WarrantScope = held_scopes now r granter doc in
    let write : has_scope WarrantScope.workspace_write held ≡ true = ground arith in
    let (here, none_wider) = widest (holds_role_scopes held) role (ground arith) in
    can_share-tests now r granter grantee doc wider ∙ ground (arith, none_wider wider h)
