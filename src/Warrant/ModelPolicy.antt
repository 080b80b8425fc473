-- ===== src/Warrant/ModelPolicy.antt =====
-- apps/server/src/warrant/model-policy.ts: which model a subtask gets. `toLowerCase` is an argument.
use please_hire_me.Prelude.{
  ℕ, Bool, ◌&&◌, ◌||◌, Option, List, [], ◌∷◌, ◌++◌, if◌then◌else◌, leb, ltb, any, or_else, Text,
  codes, includes,
}

pub data Tier : Type 0 where
  fast balanced deep : Tier

pub record ModelTiers : Type 0 where
  pub fast : Text
  pub balanced : Text
  pub deep : Text

pub record SubtaskShape : Type 0 where
  pub title : Text
  pub description : Text
  pub path_count : ℕ
  pub dependency_count : ℕ

abbrev pub deep_signals : List Text
deep_signals =
    codes "design"
    ∷ codes "architect"
    ∷ codes "refactor"
    ∷ codes "migrate"
    ∷ codes "security"
    ∷ codes "concurren"
    ∷ codes "performance"
    ∷ codes "schema"
    ∷ []

abbrev pub fast_signals : List Text
fast_signals =
    codes "rename"
    ∷ codes "typo"
    ∷ codes "comment"
    ∷ codes "changelog"
    ∷ codes "readme"
    ∷ codes "lint"
    ∷ codes "format"
    ∷ codes "docstring"
    ∷ []

abbrev pub signalled : List Text → Text → Bool
signalled signals text = any (λ s. includes s text) signals

unfoldable pub select_tier : (Text → Text) → SubtaskShape → Tier
unfolding includes
select_tier to_lower shape =
    let text = to_lower (shape.title ++ codes " " ++ shape.description) in
    if signalled fast_signals text && leb shape.path_count 2
    then fast
    else if signalled deep_signals text || ltb 0 shape.dependency_count || leb 4 shape.path_count
    then deep
    else balanced

abbrev pub model_at : ModelTiers → Tier → Text
model_at tiers fast = tiers.fast
model_at tiers balanced = tiers.balanced
model_at tiers deep = tiers.deep

unfoldable pub select_model : (Text → Text) → SubtaskShape → ModelTiers → Text
unfolding select_tier
select_model to_lower shape tiers = model_at tiers (select_tier to_lower shape)

unfoldable pub tiers_from : Text → Option Text → Option Text → Option Text → ModelTiers
tiers_from ark_model low middle high = record {
  fast = or_else low ark_model;
  balanced = or_else middle ark_model;
  deep = or_else high ark_model;
}
