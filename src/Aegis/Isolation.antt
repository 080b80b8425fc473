-- ===== src/Aegis/Isolation.antt =====
-- apps/server/src/aegis/sandbox/args.ts: the check of a container's mounts against the one workspace
-- that a run may bind.
pub mod Reach
mod Examples
use please_hire_me.Prelude.{
  ℕ, Bool, true, false, not, ◌&&◌, ◌||◌, Option, none, some, List, [], ◌∷◌, ◌++◌, if◌then◌else◌,
  ◌==◌, length, keep_if, any, find?, is_some, or_option, truthy, trim, Text, codes, text_eq,
  starts_with, split_on, Assoc, lookup, insert,
}

pub record MountSpec : Type 0 where
  pub src : Text
  pub dst : Text
  pub readonly : Bool

-- `part.indexOf("=")` with the texts before and behind it.
unfoldable pub cut_at : ℕ → Text → Option (Text × Text)
cut_at sep [] = none
cut_at sep (c ∷ s) =
    let rest = cut_at sep s in
    if c == sep then some ([], s) else elim rest [ none ↦ none | some (a, b) ↦ some (c ∷ a, b) ]

-- `replace(/\/+$/, "")`.
unfoldable pub strip_end : Text → Text
strip_end [] = []
strip_end (c ∷ s) = let rest = strip_end s in if c == b'/' && length rest == 0 then [] else c ∷ rest

unfoldable pub is_ancestor_of : Text → Text → Bool
unfolding strip_end starts_with
is_ancestor_of ancestor descendant =
    let a = strip_end ancestor in
    let d = strip_end descendant in text_eq d a || starts_with (a ++ b'/' ∷ []) d

pub record WorkspaceIsolationOptions : Type 0 where
  pub allowed_workspace : Text
  pub sibling_workspaces : List Text
  pub workspace_parent : Text

pub data SandboxProfileError : Type 0 where
  workspace_mounts : ℕ → SandboxProfileError
  points_at : Text → SandboxProfileError
  exposes_sibling : Text → Text → SandboxProfileError
  exposes_parent : Text → SandboxProfileError

abbrev pub set_field : Text → Assoc Text → Assoc Text
set_field part fields = elim (cut_at b'=' part) [
  | none ↦ insert (trim part) (codes "true") fields
  | some (key, value) ↦ insert (trim key) (trim value) fields
]

unfoldable pub fields_of : List Text → Assoc Text → Assoc Text
unfolding cut_at insert trim
fields_of [] fields = fields
fields_of (part ∷ parts) fields = fields_of parts (set_field part fields)

-- The source and the destination, both of them non-empty.
abbrev pub mount_from : Assoc Text → Option MountSpec
mount_from fields =
    let src = truthy (or_option (lookup (codes "src") fields) (lookup (codes "source") fields)) in
    let dst = truthy (
      or_option (lookup (codes "dst") fields)
        (or_option (lookup (codes "destination") fields) (lookup (codes "target") fields))) in
    let ro = is_some (lookup (codes "readonly") fields) || is_some (lookup (codes "ro") fields) in
    elim src [
      | none ↦ none
      | some s ↦ elim dst [ none ↦ none | some d ↦ some record { src = s; dst = d; readonly = ro } ]
    ]

unfoldable pub mount_of : Text → Option MountSpec
unfolding fields_of lookup split_on starts_with
mount_of spec =
    if not (starts_with (codes "type=bind") spec)
    then none
    else mount_from (fields_of (split_on b',' spec) [])

abbrev pub add_mount : Option MountSpec → List MountSpec → List MountSpec
add_mount none mounts = mounts
add_mount (some m) mounts = m ∷ mounts

unfoldable pub bind_mounts_in : List Text → List MountSpec
unfolding mount_of
bind_mounts_in [] = []
bind_mounts_in (arg ∷ []) = []
bind_mounts_in (arg ∷ spec ∷ args) =
    let rest = bind_mounts_in (spec ∷ args) in
    if text_eq arg (codes "--mount") then add_mount (mount_of spec) rest else rest

abbrev pub is_workspace : MountSpec → Bool
is_workspace m = text_eq m.dst (codes "/workspace")

module _ (options : WorkspaceIsolationOptions) where
  abbrev pub exposed_sibling : Text → Option Text
  exposed_sibling src =
      find? (λ (sibling : Text). is_ancestor_of src sibling) options.sibling_workspaces

  abbrev pub reaches_parent : Text → Bool
  reaches_parent src =
      is_ancestor_of src options.workspace_parent
      && not (is_ancestor_of options.allowed_workspace src)

  -- One round of the loop over the mounts.
  unfoldable pub check_mount : MountSpec → Option SandboxProfileError
  check_mount m = elim (exposed_sibling m.src) [
    | some sibling ↦ some (exposes_sibling m.src sibling)
    | none ↦ if reaches_parent m.src then some (exposes_parent m.src) else none
  ]

  unfoldable pub check_mounts : List MountSpec → Option SandboxProfileError
  unfolding check_mount
  check_mounts [] = none
  check_mounts (m ∷ ms) =
      let rest = check_mounts ms in elim (check_mount m) [ some e ↦ some e | none ↦ rest ]

  -- The one mount of the workspace has to be the allowed one.
  unfoldable pub check_workspace : List MountSpec → Option SandboxProfileError
  unfolding strip_end
  check_workspace [] = some (workspace_mounts 0)
  check_workspace (bound ∷ []) =
      if text_eq (strip_end bound.src) (strip_end options.allowed_workspace)
      then none
      else some (points_at bound.src)
  check_workspace (m ∷ n ∷ ms) = some (workspace_mounts (length (m ∷ n ∷ ms)))

  -- The error that is thrown, if one is.
  unfoldable pub assert_mounts : List MountSpec → Option SandboxProfileError
  unfolding check_workspace check_mounts
  assert_mounts mounts = elim (check_workspace (keep_if is_workspace mounts)) [
    | some e ↦ some e
    | none ↦ check_mounts mounts
  ]

unfoldable pub assert_workspace_isolation :
    List Text → WorkspaceIsolationOptions → Option SandboxProfileError
unfolding bind_mounts_in assert_mounts
assert_workspace_isolation args options = assert_mounts options (bind_mounts_in args)

pub record IsolationEvidence : Type 0 where
  pub bind_mounts : ℕ
  pub writable_mounts : ℕ
  pub workspace : Text

abbrev pub source_or_none : Option MountSpec → Text
source_or_none none = codes "none"
source_or_none (some m) = m.src

unfoldable pub isolation_evidence : List Text → IsolationEvidence
unfolding bind_mounts_in
isolation_evidence args =
    let mounts = bind_mounts_in args in
    record {
      bind_mounts = length mounts;
      writable_mounts = length (keep_if (λ (m : MountSpec). not m.readonly) mounts);
      workspace = source_or_none (find? is_workspace mounts);
    }
