-- ===== src/Aegis/Policy/Examples.antt =====
-- An Agent in /workspace, with one listed host and one vault.
use please_hire_me.Prelude.{
  ℕ, ◌≡◌, refl, ◌⊎◌, ◌↔◌, inl, inr, Bool, true, false, none, some, List, [], ◌∷◌, Text, codes, In,
  arith, any, text_eq,
}
use please_hire_me.Aegis.Policy.{
  Decision, allow, deny, interception, info, critical, Scope, workspace_rw, fs_read, fs_write,
  net_connect, PolicyAction, PolicyRequest, PolicyRule, evaluate, first_denial, by_rule,
}
use please_hire_me.Aegis.Policy.Bundle.{BundleOptions, create_bundle, rule}
use please_hire_me.Aegis.Policy.Confinement.{evaluate-create_bundle, confined_to}
use please_hire_me.Aegis.Policy.Overrides.{evaluate_iff, IsPermitted}

abbrev options : BundleOptions
options = record {
  to_lower = λ t. t;
  egress_allowlist = codes "ark.example.com" ∷ [];
  workspace_mount = codes "/workspace";
  vault_markers = codes "/vault" ∷ [];
  over_budget = λ r. false;
  hosts_in = λ t. [];
  system_read_allowlist = none;
}

abbrev request : PolicyAction → Text → PolicyRequest
request action resource = record {
  principal = record { agent_id = codes "ada"; owner_id = codes "eve"; scopes = workspace_rw ∷ [] };
  action = action;
  resource = resource;
  context = record { run_id = codes "r1"; gate = interception; workspace_path = none };
}

escape :
    confined_to options (request fs_write (codes "file:/workspace/../etc/passwd")) fs_write ≡ false
unfolding please_hire_me.Aegis.Policy.Resource.path_of please_hire_me.Prelude.starts_with
    please_hire_me.Aegis.Policy.Resource.is_inside text_eq please_hire_me.Prelude.ends_with
    please_hire_me.Prelude.join_with please_hire_me.Prelude.split_on
escape = refl

inside :
    confined_to options (request fs_write (codes "file:/workspace/src/../a.ts")) fs_write ≡ true
unfolding please_hire_me.Aegis.Policy.Resource.path_of please_hire_me.Prelude.starts_with
    please_hire_me.Aegis.Policy.Resource.is_inside text_eq please_hire_me.Prelude.ends_with
    please_hire_me.Prelude.join_with please_hire_me.Prelude.split_on
    please_hire_me.Aegis.Policy.Bundle.names_vault please_hire_me.Prelude.includes
inside = refl

metadata_host :
    confined_to options (request net_connect (codes "net:100.96.0.96:80")) net_connect ≡ false
unfolding please_hire_me.Aegis.Policy.Resource.host_of please_hire_me.Prelude.starts_with text_eq
metadata_host = refl

vaulted : confined_to options (request fs_read (codes "file:/workspace/vault/key")) fs_read ≡ false
unfolding please_hire_me.Aegis.Policy.Resource.path_of please_hire_me.Prelude.starts_with
    please_hire_me.Aegis.Policy.Resource.is_inside text_eq please_hire_me.Prelude.ends_with
    please_hire_me.Prelude.join_with please_hire_me.Prelude.split_on
    please_hire_me.Aegis.Policy.Bundle.names_vault please_hire_me.Prelude.includes
vaulted = refl

evaluate-create_bundle_example :
    ((evaluate
        (create_bundle options)
        (request fs_write (codes "file:/workspace/src/../a.ts"))).decision
      ≡ allow)
    ↔ (confined_to options (request fs_write (codes "file:/workspace/src/../a.ts")) fs_write ≡ true)
evaluate-create_bundle_example =
    evaluate-create_bundle options (request fs_write (codes "file:/workspace/src/../a.ts")) refl

abbrev read_a : PolicyRequest
read_a = request fs_read (codes "file:/a")

abbrev permit_all : PolicyRule
permit_all = rule options (codes "all") allow interception info (λ r. true)

abbrev forbid_vault : PolicyRule
forbid_vault =
    rule options (codes "vault") deny interception critical
      (λ r. text_eq r.resource (codes "file:/v"))

evaluate_iff_example :
    ((evaluate (forbid_vault ∷ permit_all ∷ []) read_a).decision ≡ allow)
    ↔ IsPermitted (forbid_vault ∷ permit_all ∷ []) read_a
evaluate_iff_example = evaluate_iff (forbid_vault ∷ permit_all ∷ []) read_a

fewer : (x : PolicyRule) → In x (permit_all ∷ []) → In x (forbid_vault ∷ permit_all ∷ [])
fewer x m = inr m

denials :
    (x : PolicyRule)
    → In x (forbid_vault ∷ permit_all ∷ [])
    → (x.effect ≡ deny) ⊎ In x (permit_all ∷ [])
denials x (inl e) = inl (rw e refl)
denials x (inr m) = inr m

allowed : (evaluate (forbid_vault ∷ permit_all ∷ []) read_a).decision ≡ allow
unfolding evaluate text_eq
allowed = refl
