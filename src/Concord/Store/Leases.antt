-- ===== src/Concord/Store/Leases.antt =====
-- `acquireLease` and `releaseLease`.
use please_hire_me.Prelude.{
  ℕ, ◌+◌, Bool, true, false, not, Option, none, some, if◌then◌else◌, Text, text_eq,
}
use please_hire_me.Concord.DocResource.{doc_resource}
use please_hire_me.Concord.Store.State.{
  Store, AuthzCheck, workspace_write, Lease, default_lease_ms, put_doc, ensure, reap_lease, mark,
  held_by_other,
}
use please_hire_me.Concord.Store.Write.{entered}

pub data LeaseOutcome : Type 0 where
  acquired : Lease → LeaseOutcome
  lease_denied : Text → LeaseOutcome
  -- "Document is leased by another Agent", with the holder.
  held_elsewhere : Text → LeaseOutcome

pub data ReleaseOutcome : Type 0 where
  released : ReleaseOutcome
  release_denied : Text → Text → ReleaseOutcome
  not_holder : Option Text → ReleaseOutcome

abbrev pub ttl_or_default : Option ℕ → ℕ
ttl_or_default none = default_lease_ms
ttl_or_default (some ttl_ms) = ttl_ms

unfoldable pub acquire_lease :
    AuthzCheck → ℕ → Text → Text → Option ℕ → Store → Store × LeaseOutcome
unfolding ensure reap_lease mark
acquire_lease authorize now doc_id agent ttl_ms st =
    let verdict = authorize agent workspace_write (doc_resource doc_id) in
    if not verdict.allowed
    then (st, lease_denied verdict.reason)
    else let doc = entered now doc_id st in
      elim (held_by_other agent doc.lease) [
        | some l ↦ (put_doc doc_id doc st, held_elsewhere l.holder)
        | none ↦
            let lease : Lease = record {
              holder = agent;
              human_id = verdict.human_id;
              acquired_at = now;
              expires_at = now + ttl_or_default ttl_ms;
            } in
            (
              mark now doc_id agent verdict.human_id true none
                  (put_doc doc_id (record doc { lease = some lease }) st),
              acquired lease,
            )
      ]

abbrev pub holder_of : Option Lease → Option Text
holder_of none = none
holder_of (some l) = some l.holder

abbrev pub holds : Text → Option Lease → Bool
holds agent none = false
holds agent (some l) = text_eq l.holder agent

unfoldable pub release_lease : AuthzCheck → ℕ → Text → Text → Store → Store × ReleaseOutcome
unfolding ensure reap_lease
release_lease authorize now doc_id agent st =
    let verdict = authorize agent workspace_write (doc_resource doc_id) in
    if not verdict.allowed
    then (st, release_denied verdict.rule_id verdict.reason)
    else let doc = entered now doc_id st in
      if not (holds agent doc.lease)
      then (put_doc doc_id doc st, not_holder (holder_of doc.lease))
      else (put_doc doc_id (record doc { lease = none }) st, released)
