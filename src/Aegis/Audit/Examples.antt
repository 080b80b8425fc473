-- ===== src/Aegis/Audit/Examples.antt =====
-- A log that retains one event, with the previous hash and the identifier for the digest.
use please_hire_me.Prelude.{
  ℕ, ◌≡◌, refl, ap, inl, inr, sym, ◌∙◌, Bool, Option, none, some, List, [], ◌∷◌, ◌++◌, map, In,
  length, Text, codes,
}
use please_hire_me.Aegis.Policy.{allow, interception, info}
use please_hire_me.Aegis.Audit.{
  SafetyEvent, Settings, AppendInput, AuditLog, standard, canonical_json, append, verify,
  verify_list, verify_from, initialize, genesis, sealed, unhashed,
}
use please_hire_me.Aegis.Audit.Chain.{
  Operation, recorded, restarted, perform_all, perform_all-verify, last_hash,
}
use please_hire_me.Aegis.Audit.Tampering.{verify_from-tampered, NoCollision}
use please_hire_me.Aegis.Audit.Retention.{IsPruned, append-IsPruned}

abbrev settings : Settings
settings = record {
  digest = λ previous covered. codes "h" ++ covered.event_id;
  redact_ruling = λ v. v;
  redact_evidence = λ e. e;
  capture_level = standard;
  retention = record { max_events = 1; max_age_ms = 1_000 };
}

abbrev input : AppendInput
input = record {
  run_id = codes "r1";
  agent_id = codes "ada";
  gate = interception;
  ruling = record {
    decision = allow;
    rule_id = codes "KS-0";
    reason = codes "fine";
    gate = interception;
    policy_version = codes "1.0.0";
    policy_hash = codes "p";
    severity = info;
  };
  evidence = none;
}

abbrev history : List Operation
history =
    recorded 10 (codes "1") input
    ∷ recorded 20 (codes "2") input
    ∷ restarted
    ∷ recorded 30 (codes "3") input
    ∷ []

abbrev log : AuditLog
log = perform_all settings history (initialize [])

retained : (length log.events ≡ 1) × ((length log.file ≡ 3) × (log.pruned_count ≡ 2))
unfolding perform_all append initialize
retained = (refl, (refl, refl))

numbered : map (λ (e : SafetyEvent). e.seq) log.file ≡ 0 ∷ 1 ∷ 2 ∷ []
unfolding perform_all append initialize please_hire_me.Prelude.lookup please_hire_me.Prelude.insert
    please_hire_me.Prelude.text_eq
numbered = refl

perform_all-verify_example :
    (verify settings log ≡ none)
    × ((verify_list settings log.file ≡ none)
        × ((last_hash log.anchor log.events ≡ log.head) × (last_hash genesis log.file ≡ log.head)))
perform_all-verify_example = perform_all-verify settings history

append-IsPruned_example :
    IsPruned settings 40
      (log.events ++ sealed settings (unhashed settings 40 (codes "4") input log) ∷ [])
      log
      (append settings 40 (codes "4") input log).0
append-IsPruned_example = append-IsPruned settings 40 (codes "4") input log

-- The same events with another reason in the first: what is covered is the same.
abbrev reworded : SafetyEvent → SafetyEvent
reworded e = record e { ruling = record e.ruling { reason = codes "other" } }

first_only :
    (settings' : Settings) (e : SafetyEvent) → NoCollision settings' (e ∷ []) (reworded e ∷ [])
first_only settings' e x y (inl p) (inl q) h = ap canonical_json p ∙ ap canonical_json (sym q)
first_only settings' e x y (inl p) (inr none_left) h = elim none_left [ ]
first_only settings' e x y (inr none_left) _ h = elim none_left [ ]

abbrev first : SafetyEvent
first = sealed settings (unhashed settings 10 (codes "1") input (initialize []))

first_verifies : verify_from settings genesis (first ∷ []) 0 ≡ none
unfolding verify_from please_hire_me.Prelude.text_eq initialize
first_verifies = refl

reworded_verifies : verify_from settings genesis (reworded first ∷ []) 0 ≡ none
unfolding verify_from please_hire_me.Prelude.text_eq initialize
reworded_verifies = refl

same_end : last_hash genesis (first ∷ []) ≡ last_hash genesis (reworded first ∷ [])
unfolding last_hash
same_end = refl

verify_from-tampered_example :
    (genesis ≡ genesis)
    × (map canonical_json (first ∷ []) ≡ map canonical_json (reworded first ∷ []))
verify_from-tampered_example =
    verify_from-tampered settings genesis genesis (first ∷ []) (reworded first ∷ [])
      (first_only settings first) refl first_verifies reworded_verifies same_end
