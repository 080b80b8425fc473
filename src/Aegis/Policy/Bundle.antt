-- ===== src/Aegis/Policy/Bundle.antt =====
-- apps/server/src/aegis/policy/bundle.ts: the rules. `toLowerCase`, the destinations that a command
-- names (`destinationsIn`, by regular expressions) and the comparison of the cost with the budget,
-- both floating-point numbers, are fields of the options.
use please_hire_me.Prelude.{
  Bool, true, false, not, ◌&&◌, ◌||◌, Option, none, some, List, [], ◌∷◌, map, any, or_else, Text,
  codes, text_eq, includes,
}
use please_hire_me.Aegis.Policy.Resource.{host_of, path_of, is_inside, is_private_or_link_local}
use please_hire_me.Aegis.Policy.{
  Decision, allow, deny, GateId, preflight, interception, Severity, info, warn, critical, Scope,
  workspace_rw, PolicyAction, run_start, fs_read, fs_write, net_connect, proc_exec, PolicyRequest,
  PolicyRule,
}

pub record BundleOptions : Type 0 where
  pub to_lower : Text → Text
  pub egress_allowlist : List Text
  pub workspace_mount : Text
  pub vault_markers : List Text
  pub over_budget : PolicyRequest → Bool
  pub hosts_in : Text → List Text
  pub system_read_allowlist : Option (List Text)

abbrev pub default_system_reads : List Text
default_system_reads =
    codes "/usr"
    ∷ codes "/bin"
    ∷ codes "/sbin"
    ∷ codes "/lib"
    ∷ codes "/lib64"
    ∷ codes "/opt"
    ∷ codes "/tmp"
    ∷ codes "/codex-home"
    ∷ codes "/dev/null"
    ∷ codes "/dev/urandom"
    ∷ codes "/dev/stdout"
    ∷ codes "/dev/stderr"
    ∷ codes "/proc/self"
    ∷ codes "/etc/ssl"
    ∷ codes "/etc/ca-certificates"
    ∷ codes "/etc/resolv.conf"
    ∷ codes "/etc/hosts"
    ∷ codes "/etc/nsswitch.conf"
    ∷ codes "/etc/localtime"
    ∷ []

abbrev pub action_eq : PolicyAction → PolicyAction → Bool
action_eq run_start run_start = true
action_eq fs_read fs_read = true
action_eq fs_write fs_write = true
action_eq net_connect net_connect = true
action_eq proc_exec proc_exec = true
action_eq _ _ = false

abbrev pub is_workspace_rw : Scope → Bool
is_workspace_rw workspace_rw = true
is_workspace_rw _ = false

-- `x !== null && test(x)`.
abbrev pub holds_of : Option Text → (Text → Bool) → Bool
holds_of none test = false
holds_of (some t) test = test t

module _ (options : BundleOptions) where
  abbrev pub is_listed : Text → Bool
  is_listed host = any (text_eq host) (map options.to_lower options.egress_allowlist)

  abbrev pub is_private : Text → Bool
  is_private host = is_private_or_link_local options.to_lower host

  unfoldable pub names_vault : Text → Bool
  names_vault target =
      any (λ (marker : Text). text_eq target marker || includes marker target) options.vault_markers

  unfoldable pub is_system_read : Text → Bool
  is_system_read target =
      any (λ (prefix : Text). is_inside prefix target)
        (or_else options.system_read_allowlist default_system_reads)

  -- Inside the workspace that the run names, or the configured one.
  abbrev pub in_workspace : PolicyRequest → Text → Bool
  in_workspace r target =
      is_inside (or_else r.context.workspace_path options.workspace_mount) target

  abbrev pub is_fs : PolicyRequest → Bool
  is_fs r = action_eq r.action fs_read || action_eq r.action fs_write

  abbrev pub rule : Text → Decision → GateId → Severity → (PolicyRequest → Bool) → PolicyRule
  rule id effect gate severity when = record {
    id = id;
    effect = effect;
    gate = gate;
    severity = severity;
    when = λ r. some (when r);
  }

  abbrev pub may_start : PolicyRequest → Bool
  may_start r = action_eq r.action run_start && any is_workspace_rw r.principal.scopes

  abbrev pub is_over_budget : PolicyRequest → Bool
  is_over_budget r = action_eq r.action run_start && options.over_budget r

  abbrev pub connects_elsewhere : PolicyRequest → Bool
  connects_elsewhere r =
      action_eq r.action net_connect
      && holds_of (host_of options.to_lower r.resource) (λ host. not (is_listed host))

  abbrev pub connects_privately : PolicyRequest → Bool
  connects_privately r =
      action_eq r.action net_connect && holds_of (host_of options.to_lower r.resource) is_private

  abbrev pub touches_vault : PolicyRequest → Bool
  touches_vault r = holds_of (path_of r.resource) names_vault

  -- A write anywhere else is refused, and a read but of a system path.
  abbrev pub leaves_workspace : PolicyRequest → Bool
  leaves_workspace r = holds_of (path_of r.resource) λ target.
      is_fs r
      && not (in_workspace r target)
      && (action_eq r.action fs_write || not (is_system_read target))

  abbrev pub stays_in_workspace : PolicyRequest → Bool
  stays_in_workspace r =
      holds_of (path_of r.resource)
        λ target. is_fs r && (in_workspace r target && not (names_vault target))

  abbrev pub reads_system : PolicyRequest → Bool
  reads_system r =
      holds_of (path_of r.resource)
        λ target. action_eq r.action fs_read && (is_system_read target && not (names_vault target))

  abbrev pub connects_to_listed : PolicyRequest → Bool
  connects_to_listed r =
      action_eq r.action net_connect
      && holds_of (host_of options.to_lower r.resource)
          (λ host. is_listed host && not (is_private host))

  abbrev pub executes : PolicyRequest → Bool
  executes r = action_eq r.action proc_exec

  abbrev pub is_forbidden : Text → Bool
  is_forbidden host = not (is_listed host) || is_private host

  abbrev pub names_elsewhere : PolicyRequest → Bool
  names_elsewhere r = action_eq r.action proc_exec && any is_forbidden (options.hosts_in r.resource)

  unfoldable pub create_bundle : List PolicyRule
  create_bundle =
      rule (codes "KS-0.default-workspace-task") allow preflight info may_start
      ∷ rule (codes "KS-6.budget.exhausted") deny preflight warn is_over_budget
      ∷ rule (codes "KS-1.egress.deny-non-allowlisted") deny interception critical
          connects_elsewhere
      ∷ rule (codes "KS-1.egress.deny-private-ranges") deny interception critical connects_privately
      ∷ rule (codes "KS-2.vault.deny-any-access") deny interception critical touches_vault
      ∷ rule (codes "KS-3.fs.deny-outside-workspace") deny interception critical leaves_workspace
      ∷ rule (codes "KS-0.fs.workspace-io") allow interception info stays_in_workspace
      ∷ rule (codes "KS-0.fs.system-read") allow interception info reads_system
      ∷ rule (codes "KS-0.net.allowlisted") allow interception info connects_to_listed
      ∷ rule (codes "KS-0.proc.exec") allow interception info executes
      ∷ rule (codes "KS-1.proc.deny-egress-tool-outside-allowlist") deny interception critical
          names_elsewhere
      ∷ []
