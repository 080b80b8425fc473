-- ===== src/Aegis/Audit.antt =====
-- apps/server/src/aegis/audit.ts: the log of safety events, chained by hashes. SHA-256 over the
-- previous hash and the JSON of what is covered is `digest`, and the redactor two functions; both are
-- fields of the settings. The file is the list of the events appended to it, each written whole.
mod Chain
mod Tampering
mod Retention
mod Examples
use please_hire_me.Prelude.{
  ℕ, suc, ◌+◌, ◌-◌, Bool, true, false, not, ◌||◌, Option, none, some, List, [], ◌∷◌, ◌++◌,
  if◌then◌else◌, ltb, leb, ◌==◌, length, drop, replicate, keep_if, or_else, max, Text, codes,
  text_eq, Assoc, lookup, insert,
}
use please_hire_me.Aegis.Policy.{Decision, GateId, Severity}

-- A verdict as it is recorded, with the bundle that gave it.
pub record Ruling : Type 0 where
  pub decision : Decision
  pub rule_id : Text
  pub reason : Text
  pub gate : GateId
  pub policy_version : Text
  pub policy_hash : Text
  pub severity : Severity

pub data EvidenceValue : Type 0 where
  text : Text → EvidenceValue
  number : ℕ → EvidenceValue
  flag : Bool → EvidenceValue

abbrev pub Evidence : Type 0
Evidence = List (Text × EvidenceValue)

pub record SafetyEvent : Type 0 where
  pub event_id : Text
  pub run_id : Text
  pub agent_id : Text
  pub seq : ℕ
  pub ts : ℕ
  pub gate : GateId
  pub ruling : Ruling
  pub evidence : Evidence
  pub prev_hash : Text
  pub hash : Text

-- The array that is hashed.
pub record Covered : Type 0 where
  pub event_id : Text
  pub run_id : Text
  pub agent_id : Text
  pub seq : ℕ
  pub ts : ℕ
  pub gate : GateId
  pub decision : Decision
  pub rule_id : Text
  pub policy_hash : Text
  pub evidence : Evidence
  pub prev_hash : Text

pub data CaptureLevel : Type 0 where
  minimal standard full : CaptureLevel

pub record RetentionOptions : Type 0 where
  pub max_events : ℕ
  pub max_age_ms : ℕ

abbrev pub default_retention : RetentionOptions
default_retention = record { max_events = 5_000; max_age_ms = 604_800_000 }

pub record Settings : Type 0 where
  pub digest : Text → Covered → Text
  pub redact_ruling : Ruling → Ruling
  pub redact_evidence : Evidence → Evidence
  pub capture_level : CaptureLevel
  pub retention : RetentionOptions

pub record AppendInput : Type 0 where
  pub run_id : Text
  pub agent_id : Text
  pub gate : GateId
  pub ruling : Ruling
  pub evidence : Option Evidence

pub record AuditLog : Type 0 where
  pub events : List SafetyEvent
  pub head : Text
  pub seq_by_run : Assoc ℕ
  pub anchor : Text
  pub pruned_count : ℕ
  pub file : List SafetyEvent

abbrev pub genesis : Text
genesis = replicate 64 b'0'

abbrev pub canonical_json : SafetyEvent → Covered
canonical_json e = record {
  event_id = e.event_id;
  run_id = e.run_id;
  agent_id = e.agent_id;
  seq = e.seq;
  ts = e.ts;
  gate = e.gate;
  decision = e.ruling.decision;
  rule_id = e.ruling.rule_id;
  policy_hash = e.ruling.policy_hash;
  evidence = e.evidence;
  prev_hash = e.prev_hash;
}

abbrev pub empty_log : List SafetyEvent → AuditLog
empty_log file = record {
  events = [];
  head = genesis;
  seq_by_run = [];
  anchor = genesis;
  pruned_count = 0;
  file = file;
}

-- The `seq` of the last event of a run: `current ?? -1` is one less than `next_seq`.
abbrev pub next_seq : Option ℕ → ℕ
next_seq none = 0
next_seq (some n) = suc n

-- One line of the file.
unfoldable pub restore : SafetyEvent → AuditLog → AuditLog
restore e log = record log {
  events = log.events ++ e ∷ [];
  head = e.hash;
  seq_by_run =
      if leb (next_seq (lookup e.run_id log.seq_by_run)) e.seq
      then insert e.run_id e.seq log.seq_by_run
      else log.seq_by_run;
}

unfoldable pub restore_all : List SafetyEvent → AuditLog → AuditLog
unfolding restore
restore_all [] log = log
restore_all (e ∷ es) log = restore_all es (restore e log)

unfoldable pub initialize : List SafetyEvent → AuditLog
unfolding restore_all
initialize file = restore_all file (empty_log file)

module _ (settings : Settings) where
  abbrev pub hash_event : SafetyEvent → Text
  hash_event e = settings.digest e.prev_hash (canonical_json e)

  -- `Date.parse(event.ts) < now - maxAgeMs`, and more events than are retained.
  abbrev pub is_prunable : ℕ → SafetyEvent → ℕ → Bool
  is_prunable now e remaining =
      ltb (e.ts + settings.retention.max_age_ms) now || ltb settings.retention.max_events remaining

  abbrev pub drop_oldest : SafetyEvent → AuditLog → AuditLog
  drop_oldest e log = record log { anchor = e.hash; pruned_count = suc log.pruned_count }

  -- The loop of `prune`; `events` are those that are not dropped yet.
  unfoldable pub prune_events : ℕ → List SafetyEvent → AuditLog → AuditLog
  prune_events now [] log = record log { events = [] }
  prune_events now (e ∷ es) log =
      let pruned = prune_events now es (drop_oldest e log) in
      if is_prunable now e (length (e ∷ es)) then pruned else record log { events = e ∷ es }

  unfoldable pub prune : ℕ → AuditLog → AuditLog
  unfolding prune_events
  prune now log = prune_events now log.events log

  abbrev pub captured : CaptureLevel → Option Evidence → Evidence
  captured minimal evidence = []
  captured standard evidence = settings.redact_evidence (or_else evidence [])
  captured full evidence = settings.redact_evidence (or_else evidence [])

  abbrev pub sealed : SafetyEvent → SafetyEvent
  sealed e = record e { hash = hash_event e }

  abbrev pub unhashed : ℕ → Text → AppendInput → AuditLog → SafetyEvent
  unhashed now event_id input log = record {
    event_id = event_id;
    run_id = input.run_id;
    agent_id = input.agent_id;
    seq = next_seq (lookup input.run_id log.seq_by_run);
    ts = now;
    gate = input.gate;
    ruling = settings.redact_ruling input.ruling;
    evidence = captured settings.capture_level input.evidence;
    prev_hash = log.head;
    hash = [];
  }

  abbrev pub keep_event : SafetyEvent → AuditLog → AuditLog
  keep_event e log = record log {
    events = log.events ++ e ∷ [];
    head = e.hash;
    seq_by_run = insert e.run_id e.seq log.seq_by_run;
    file = log.file ++ e ∷ [];
  }

  -- With the event that is returned.
  unfoldable pub append : ℕ → Text → AppendInput → AuditLog → AuditLog × SafetyEvent
  unfolding prune
  append now event_id input log =
      let e = sealed (unhashed now event_id input log) in (prune now (keep_event e log), e)

  -- The index of the first bad record; `none` is the source's -1.
  unfoldable pub verify_from : Text → List SafetyEvent → ℕ → Option ℕ
  verify_from previous [] index = none
  verify_from previous (e ∷ es) index =
      let rest = verify_from e.hash es (suc index) in
      if not (text_eq e.prev_hash previous)
      then some index
      else if not (text_eq (hash_event e) e.hash)
      then some index
      else rest

  abbrev pub first_previous : List SafetyEvent → Text
  first_previous [] = genesis
  first_previous (e ∷ es) = e.prev_hash

  -- `verify()`, and `verify(events)` for a list of the caller's.
  unfoldable pub verify : AuditLog → Option ℕ
  unfolding verify_from
  verify log = verify_from log.anchor log.events 0

  unfoldable pub verify_list : List SafetyEvent → Option ℕ
  unfolding verify_from
  verify_list events = verify_from (first_previous events) events 0

unfoldable pub by_run : Text → AuditLog → List SafetyEvent
by_run run_id log = keep_if (λ (e : SafetyEvent). text_eq e.run_id run_id) log.events

-- `slice(-limit)`, where -0 is the start of the list.
unfoldable pub recent : ℕ → AuditLog → List SafetyEvent
recent limit log = if limit == 0 then log.events else drop (length log.events - limit) log.events
