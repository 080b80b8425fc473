-- ===== src/Aegis/Policy/Confinement.antt =====
-- apps/server/src/aegis/policy: what the bundle lets an Agent do at the gate of interception.
use please_hire_me.Prelude.{
  ◌≡◌, refl, ◌≢◌, ◌⊎◌, ◌↔◌, inl, inr, Bool, true, false, not, ◌&&◌, ◌||◌, none, some, arith,
  Bool-cases, Option-cases, List, [], ◌∷◌, any, all, Text, starts_with,
}
use please_hire_me.Aegis.Policy.{
  allow, interception, PolicyAction, run_start, fs_read, fs_write, net_connect, proc_exec,
  PolicyRequest, evaluate_rules, evaluate,
}
use please_hire_me.Aegis.Policy.Resource.{path_of, host_of, net_prefix, file_prefix}
use please_hire_me.Aegis.Policy.Bundle.{
  BundleOptions, create_bundle, holds_of, is_forbidden, is_listed, is_private, names_vault,
  is_system_read, in_workspace,
}

-- A host on the allowlist that is no private address.
abbrev pub reachable : BundleOptions → Text → Bool
reachable options host = is_listed options host && not (is_private options host)

module _ (options : BundleOptions) (r : PolicyRequest) where
  -- A path in the workspace of the run, or a path of the system that is only read; never the vault.
  abbrev pub writable : Text → Bool
  writable target = in_workspace options r target && not (names_vault options target)

  abbrev pub readable : Text → Bool
  readable target =
      (in_workspace options r target || is_system_read options target)
      && not (names_vault options target)

  -- What may be done with a resource at interception, by the action.
  abbrev pub confined_to : PolicyAction → Bool
  confined_to run_start = false
  confined_to fs_read = holds_of (path_of r.resource) readable
  confined_to fs_write = holds_of (path_of r.resource) writable
  confined_to net_connect = holds_of (host_of options.to_lower r.resource) (reachable options)
  confined_to proc_exec =
      not (holds_of (path_of r.resource) (names_vault options))
      && all (reachable options) (options.hosts_in r.resource)

-- A resource is not both a host and a path.
net-file : (s : Text) → starts_with net_prefix s ≡ true → starts_with file_prefix s ≡ false
unfolding starts_with
net-file [] e = ground arith
net-file (c ∷ s) e = ground arith

none-some {ℓ} : {A : Type ℓ} {a : A} → none ≢ some a
none-some e = ground arith

host_of-path_of :
    (to_lower : Text → Text) (s host : Text) → host_of to_lower s ≡ some host → path_of s ≡ none
unfolding host_of path_of
host_of-path_of to_lower s host e = elim (Bool-cases (starts_with net_prefix s)) [
  | inl n ↦ rw (net-file s n) refl
  | inr n ↦ elim (none-some (rw n at e)) [ ]
]

any-is_forbidden :
    (options : BundleOptions) (hosts : List Text)
    → any (is_forbidden options) hosts ≡ not (all (reachable options) hosts)
any-is_forbidden options [] = refl
any-is_forbidden options (h ∷ hosts) = ground (arith, any-is_forbidden options hosts)

hosts-cases :
    (options : BundleOptions) (hosts : List Text)
    → ((any (is_forbidden options) hosts ≡ true) × (all (reachable options) hosts ≡ false))
      ⊎ ((any (is_forbidden options) hosts ≡ false) × (all (reachable options) hosts ≡ true))
hosts-cases options hosts = ground (arith, any-is_forbidden options hosts)

module _ (options : BundleOptions) (r : PolicyRequest) (at : r.context.gate ≡ interception) where
  abbrev Decides : PolicyAction → Type 0
  Decides action =
      r.action ≡ action
      → ((evaluate (create_bundle options) r).decision ≡ allow)
        ↔ (confined_to options r action ≡ true)

  confine-write : Decides fs_write
  unfolding evaluate evaluate_rules create_bundle
  confine-write e = elim (Option-cases (path_of r.resource)) [
    | inl p ↦ rw (at, e, p) ground arith
    | inr (t, p) ↦ elim (Bool-cases (names_vault options t)) [
      | inl v ↦ rw (at, e, p, v) ground arith
      | inr v ↦ elim (Bool-cases (in_workspace options r t)) [
        | inl w ↦ rw (at, e, p, v, w) ground arith
        | inr w ↦ rw (at, e, p, v, w) ground arith
      ]
    ]
  ]

  confine-read : Decides fs_read
  unfolding evaluate evaluate_rules create_bundle
  confine-read e = elim (Option-cases (path_of r.resource)) [
    | inl p ↦ rw (at, e, p) ground arith
    | inr (t, p) ↦ elim (Bool-cases (names_vault options t)) [
      | inl v ↦ rw (at, e, p, v) ground arith
      | inr v ↦ elim (Bool-cases (in_workspace options r t)) [
        | inl w ↦ rw (at, e, p, v, w) ground arith
        | inr w ↦ rw (at, e, p, v, w) ground arith
      ]
    ]
  ]

  confine-net : Decides net_connect
  unfolding evaluate evaluate_rules create_bundle
  confine-net e = elim (Option-cases (host_of options.to_lower r.resource)) [
    | inl h ↦ elim (Option-cases (path_of r.resource)) [
      | inl p ↦ rw (at, e, h, p) ground arith
      | inr (t, p) ↦ elim (Bool-cases (names_vault options t)) [
        | inl v ↦ rw (at, e, h, p, v) ground arith
        | inr v ↦ rw (at, e, h, p, v) ground arith
      ]
    ]
    | inr (host, h) ↦
        let p = host_of-path_of options.to_lower r.resource host h in
        elim (Bool-cases (is_listed options host)) [
          | inl l ↦ elim (Bool-cases (is_private options host)) [
            | inl q ↦ rw (at, e, h, p, l, q) ground arith
            | inr q ↦ rw (at, e, h, p, l, q) ground arith
          ]
          | inr l ↦ rw (at, e, h, p, l) ground arith
        ]
  ]

  confine-proc : Decides proc_exec
  unfolding evaluate evaluate_rules create_bundle
  confine-proc e =
      let hosts = hosts-cases options (options.hosts_in r.resource) in
      elim (Option-cases (path_of r.resource)) [
        | inl p ↦ elim hosts [
          | inl x ↦ rw (at, e, p, x.0, x.1) ground arith
          | inr x ↦ rw (at, e, p, x.0, x.1) ground arith
        ]
        | inr (t, p) ↦ elim (Bool-cases (names_vault options t)) [
          | inl v ↦ rw (at, e, p, v) ground arith
          | inr v ↦ elim hosts [
            | inl x ↦ rw (at, e, p, v, x.0, x.1) ground arith
            | inr x ↦ rw (at, e, p, v, x.0, x.1) ground arith
          ]
        ]
      ]

  confine-start : Decides run_start
  unfolding evaluate evaluate_rules create_bundle
  confine-start e = elim (Option-cases (path_of r.resource)) [
    | inl p ↦ rw (at, e, p) ground arith
    | inr (t, p) ↦ elim (Bool-cases (names_vault options t)) [
      | inl v ↦ rw (at, e, p, v) ground arith
      | inr v ↦ rw (at, e, p, v) ground arith
    ]
  ]

  confine_each : (action : PolicyAction) → Decides action
  confine_each run_start = confine-start
  confine_each fs_read = confine-read
  confine_each fs_write = confine-write
  confine_each net_connect = confine-net
  confine_each proc_exec = confine-proc

-- At the gate of interception the bundle allows exactly what confines the Agent: a connection to a
-- listed host that is no private address; a write in the workspace, a read there or of a system path,
-- and neither of the vault; a command that names no host but such hosts, nor the vault as a path; and
-- no start of a run.
pub evaluate-create_bundle :
    (options : BundleOptions) (r : PolicyRequest)
    → r.context.gate ≡ interception
    → ((evaluate (create_bundle options) r).decision ≡ allow)
      ↔ (confined_to options r r.action ≡ true)
evaluate-create_bundle options r at = confine_each options r at r.action refl
