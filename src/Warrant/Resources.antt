-- ===== src/Warrant/Resources.antt =====
-- apps/server/src/warrant/resources.ts: canonical resource identifiers.
pub mod Covering
pub mod Paths
use please_hire_me.Prelude.{
  ℕ, zero, suc, Bool, true, false, ◌&&◌, ◌||◌, Option, none, some, List, [], ◌∷◌, ◌++◌, map,
  if◌then◌else◌, ◌==◌, drop, length, Text, codes, text_eq, starts_with, ends_with, split_on,
  join_with,
}

abbrev pub ws_prefix : Text
ws_prefix = codes "ws:"

abbrev pub repo_prefix : Text
repo_prefix = codes "repo:"

abbrev pub branch_prefix : Text
branch_prefix = codes "branch:"

abbrev pub integration_branch : Text
integration_branch = branch_prefix ++ codes "integration"

abbrev pub slash : ℕ
slash = b'/'

unfoldable pub workspace_resource : Text → Text
workspace_resource subtask_id = ws_prefix ++ subtask_id

-- `input.replace(/\\/g, "/")`.
unfoldable pub forward_slashes : Text → Text
forward_slashes [] = []
forward_slashes (c ∷ s) = (if c == 92 then slash else c) ∷ forward_slashes s

-- `out.pop()`, with the top of `out` at the head.
abbrev pub pop_part : List Text → List Text
pop_part [] = []
pop_part (p ∷ ps) = ps

abbrev pub dot : Text
dot = codes "."

abbrev pub dot_dot : Text
dot_dot = codes ".."

-- One round of the loop.
unfoldable pub push_part : Text → List Text → List Text
push_part part out =
    if text_eq part [] || text_eq part dot
    then out
    else if text_eq part dot_dot
    then pop_part out
    else part ∷ out

unfoldable pub resolve_parts : List Text → List Text → List Text
unfolding push_part
resolve_parts [] out = out
resolve_parts (part ∷ parts) out = resolve_parts parts (push_part part out)

-- `out` in the order of the source, the top last.
unfoldable pub in_order : List Text → List Text
in_order [] = []
in_order (p ∷ ps) = in_order ps ++ p ∷ []

unfoldable pub normalise_path : Text → Text
unfolding resolve_parts forward_slashes in_order
normalise_path input =
    join_with slash (in_order (resolve_parts (split_on slash (forward_slashes input)) []))

unfoldable pub repo_file_resource : Text → Text
unfolding normalise_path
repo_file_resource repo_path = repo_prefix ++ normalise_path repo_path

unfoldable pub is_workspace : Text → Bool
is_workspace resource = starts_with ws_prefix resource

unfoldable pub subtask_id_of : Text → Option Text
subtask_id_of resource =
    if starts_with ws_prefix resource then some (drop (length ws_prefix) resource) else none

unfoldable pub is_integration_branch : Text → Bool
is_integration_branch resource = text_eq resource integration_branch

-- The prefix that a path must have to lie beneath `g`.
abbrev pub beneath : Text → Text
beneath g = if ends_with slash g then g else g ++ slash ∷ []

unfoldable pub covers_path : Text → Text → Bool
covers_path g r = text_eq g [] || (text_eq r g || starts_with (beneath g) r)

unfoldable pub covers : Text → Text → Bool
unfolding covers_path
covers granted resource =
    if text_eq granted resource
    then true
    else if starts_with repo_prefix granted && starts_with repo_prefix resource
    then covers_path (drop (length repo_prefix) granted) (drop (length repo_prefix) resource)
    else false
