-- ===== src/Warrant/Splitter.antt =====
-- apps/server/src/warrant/splitter.ts: the splitter by rule. `toLowerCase` is an argument.
use please_hire_me.Prelude.{
  ℕ, Bool, false, not, ◌&&◌, ◌||◌, List, [], ◌∷◌, ◌++◌, if◌then◌else◌, leb, ◌==◌, max, length, take,
  Text, codes,
}
use mathlib.Core.List.{reverse}
use please_hire_me.Warrant.Tasks.{SubtaskProposal}

-- `[a-z0-9]`.
abbrev pub is_slug_unit : ℕ → Bool
is_slug_unit c = (leb b'a' c && leb c b'z') || (leb b'0' c && leb c b'9')

-- `replace(/[^a-z0-9]+/g, "-")`; the test says whether the unit before was replaced.
unfoldable pub dash_runs : Bool → Text → Text
dash_runs in_run [] = []
dash_runs in_run (c ∷ s) =
    let rest = dash_runs (not (is_slug_unit c)) s in
    if is_slug_unit c then c ∷ rest else if in_run then rest else b'-' ∷ rest

unfoldable pub drop_dashes : Text → Text
drop_dashes [] = []
drop_dashes (c ∷ s) = if c == b'-' then drop_dashes s else c ∷ s

unfoldable pub slug : (Text → Text) → Text → Text
unfolding dash_runs drop_dashes
slug to_lower value =
    let dashed = dash_runs false (to_lower value) in
    let cut = take 32 (reverse (drop_dashes (reverse (drop_dashes dashed)))) in
    if length cut == 0 then codes "work" else cut

-- `RuleSplitter.split`.
unfoldable pub rule_split : (Text → Text) → Text → ℕ → List SubtaskProposal
unfolding slug
rule_split to_lower title most =
    let base = slug to_lower title in
    let proposals : List SubtaskProposal =
      record {
        title = codes "Implement: " ++ title;
        description =
            codes "Write the core implementation for " ++ (title ++ codes " in the source tree.");
        paths = (codes "src/" ++ (base ++ codes ".ts")) ∷ [];
      }
      ∷ record {
        title = codes "Configure and validate: " ++ title;
        description =
            codes "Add configuration, environment validation and defaults for "
            ++ (title ++ codes ".");
        paths = (codes "src/config/" ++ (base ++ codes ".ts")) ∷ [];
      }
      ∷ record {
        title = codes "Test: " ++ title;
        description =
            codes "Cover " ++ (title ++ codes " with positive and negative automated tests.");
        paths = (codes "tests/" ++ (base ++ codes ".test.ts")) ∷ [];
      }
      ∷ record {
        title = codes "Document: " ++ title;
        description = codes "Update the README and changelog for " ++ (title ++ codes ".");
        paths = (codes "docs/" ++ (base ++ codes ".md")) ∷ [];
      }
      ∷ [] in
    take (max 1 most) proposals
