-- ===== src/Aegis/Isolation/Examples.antt =====
-- The workspaces /w/a and /w/b, seen from the first.
use please_hire_me.Prelude.{ℕ, ◌≡◌, ◌↔◌, refl, Option, none, some, List, [], ◌∷◌, ◌++◌, Text, codes}
use please_hire_me.Aegis.Isolation.{
  WorkspaceIsolationOptions, assert_workspace_isolation, bind_mounts_in, exposes_sibling,
  exposes_parent, points_at, workspace_mounts,
}
use please_hire_me.Aegis.Isolation.Reach.{IsIsolated, assert_workspace_isolation_iff}

abbrev options : WorkspaceIsolationOptions
options = record {
  allowed_workspace = codes "/w/a";
  sibling_workspaces = codes "/w/b" ∷ [];
  workspace_parent = codes "/w";
}

abbrev own : List Text
own = codes "--mount" ∷ codes "type=bind,src=/w/a/,dst=/workspace" ∷ []

abbrev with_mount : Text → List Text
with_mount spec = own ++ codes "--mount" ∷ spec ∷ []

passes : assert_workspace_isolation own options ≡ none
unfolding assert_workspace_isolation please_hire_me.Prelude.text_eq
    please_hire_me.Aegis.Isolation.is_ancestor_of
passes = refl

no_mount : assert_workspace_isolation (codes "--rm" ∷ []) options ≡ some (workspace_mounts 0)
unfolding assert_workspace_isolation
no_mount = refl

sibling :
    assert_workspace_isolation (with_mount (codes "type=bind,source=/w/b,target=/x,ro")) options
    ≡ some (exposes_sibling (codes "/w/b") (codes "/w/b"))
unfolding assert_workspace_isolation please_hire_me.Prelude.text_eq
    please_hire_me.Aegis.Isolation.is_ancestor_of
sibling = refl

root :
    assert_workspace_isolation (with_mount (codes "type=bind,src=/,dst=/x")) options
    ≡ some (exposes_sibling (codes "/") (codes "/w/b"))
unfolding assert_workspace_isolation please_hire_me.Prelude.text_eq
    please_hire_me.Aegis.Isolation.is_ancestor_of
root = refl

-- A directory in another owner's workspace is not refused.
within_sibling :
    assert_workspace_isolation (with_mount (codes "type=bind,src=/w/b/src,dst=/x")) options ≡ none
unfolding assert_workspace_isolation please_hire_me.Prelude.text_eq
    please_hire_me.Aegis.Isolation.is_ancestor_of
within_sibling = refl

assert_workspace_isolation_iff_example :
    (assert_workspace_isolation own options ≡ none) ↔ IsIsolated options (bind_mounts_in own)
assert_workspace_isolation_iff_example = assert_workspace_isolation_iff own options
