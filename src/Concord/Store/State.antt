-- ===== src/Concord/Store/State.antt =====
-- The state of the store, and the steps that every operation shares.
use please_hire_me.Prelude.{
  ℕ, ◌+◌, Bool, false, ◌&&◌, ◌||◌, Option, none, some, List, [], ◌∷◌, ◌++◌, if◌then◌else◌, ltb, leb,
  or_option, Text, text_eq, Assoc, lookup, insert,
}
use please_hire_me.Concord.Merge.{MergeConflict}
use please_hire_me.Concord.Sections.{SectionRegistry, SectionRange, BoundsReason}
use please_hire_me.Concord.Provenance.{LineProvenance, Caret}

pub data StoreAction : Type 0 where
  workspace_read workspace_write : StoreAction

pub record Verdict : Type 0 where
  pub allowed : Bool
  pub rule_id : Text
  pub reason : Text
  pub human_id : Option Text

abbrev pub AuthzCheck : Type 0
AuthzCheck = Text → StoreAction → Text → Verdict

pub record Lease : Type 0 where
  pub holder : Text
  pub human_id : Option Text
  pub acquired_at : ℕ
  pub expires_at : ℕ

-- "cf" + seq + "_" + slug: the two parts can be read back from the text.
pub record ConflictId : Type 0 where
  pub seq : ℕ
  pub slug : Text

pub record PendingConflict : Type 0 where
  pub id : ConflictId
  pub doc_id : Text
  pub agent_id : Text
  pub human_id : Option Text
  pub at : ℕ
  pub base : Text
  pub ours : Text
  pub theirs : Text
  pub at_version : ℕ
  pub conflicts : List MergeConflict

pub record PresenceCaret : Type 0 where
  pub line : ℕ
  pub column : ℕ
  pub at_version : ℕ

-- `editing` is the activity "editing", its negation "viewing".
pub record PresenceEntry : Type 0 where
  pub agent_id : Text
  pub human_id : Option Text
  pub editing : Bool
  pub at : ℕ
  pub caret : Option PresenceCaret

-- Why a write was refused by the rules on sections.
pub data Breach : Type 0 where
  not_allocated : Breach
  section_missing : Text → Breach
  outside : Text → SectionRange → BoundsReason → Breach

pub data EventOutcome : Type 0 where
  denied : Text → Text → EventOutcome
  out_of_section : Breach → EventOutcome
  leased : Text → EventOutcome
  written written_by_hand : EventOutcome
  merged : ℕ → ℕ → EventOutcome
  conflict : ConflictId → ℕ → EventOutcome
  resolved : ConflictId → Text → EventOutcome

pub record ConcordEvent : Type 0 where
  pub doc_id : Text
  pub actor_id : Text
  pub human_id : Option Text
  pub outcome : EventOutcome
  pub version : ℕ

pub data ContributionOutcome : Type 0 where
  written merged : ContributionOutcome

-- The summary: a bounded message, if there is one, and the number of changed lines.
pub record Summary : Type 0 where
  pub message : Option Text
  pub changed_lines : ℕ

pub record AgentContribution : Type 0 where
  pub id : Text
  pub document_id : Text
  pub agent_id : Option Text
  pub human_id : Option Text
  pub run_id : Option Text
  pub base_version : ℕ
  pub resulting_version : ℕ
  pub outcome : ContributionOutcome
  pub changed_line_ids : List Text
  pub summary : Summary
  pub created_at : ℕ
  pub caret : Option Caret

pub data HistoryMessage : Type 0 where
  said : Text → HistoryMessage
  resolved_conflict : ConflictId → HistoryMessage

pub record HistoryEntry : Type 0 where
  pub version : ℕ
  pub agent_id : Text
  pub human_id : Option Text
  pub at : ℕ
  pub message : Option HistoryMessage
  pub contribution_id : Option Text

pub record SharedDoc : Type 0 where
  pub id : Text
  pub version : ℕ
  pub content : Text
  pub updated_at : ℕ
  pub updated_by : Option Text
  pub lease : Option Lease
  pub history : List HistoryEntry
  pub conflicts : List PendingConflict
  pub provenance : List LineProvenance
  pub contributions : List AgentContribution

-- `drawn` counts the random identifiers that are used up, and `events` is what `onEvent` was given.
pub record Store : Type 0 where
  pub docs : Assoc SharedDoc
  pub bases : Assoc Text
  pub presence : Assoc (Assoc PresenceEntry)
  pub conflict_seq : ℕ
  pub sections : SectionRegistry
  pub events : List ConcordEvent
  pub drawn : ℕ

abbrev pub default_lease_ms : ℕ
default_lease_ms = 30_000

abbrev pub presence_ttl_ms : ℕ
presence_ttl_ms = 15_000

abbrev pub emit : ConcordEvent → Store → Store
emit e st = record st { events = st.events ++ e ∷ [] }

abbrev pub put_doc : Text → SharedDoc → Store → Store
put_doc doc_id doc st = record st { docs = insert doc_id doc st.docs }

abbrev pub empty_doc : ℕ → Text → SharedDoc
empty_doc now doc_id = record {
  id = doc_id;
  version = 0;
  content = [];
  updated_at = now;
  updated_by = none;
  lease = none;
  history = [];
  conflicts = [];
  provenance = [];
  contributions = [];
}

-- The document, made if it is not there.
unfoldable pub ensure : ℕ → Text → Store → SharedDoc
ensure now doc_id st = elim (lookup doc_id st.docs) [ none ↦ empty_doc now doc_id | some doc ↦ doc ]

unfoldable pub reap_lease : ℕ → SharedDoc → SharedDoc
reap_lease now doc = elim doc.lease [
  | none ↦ doc
  | some l ↦ if leb l.expires_at now then record doc { lease = none } else doc
]

abbrev pub base_key : Text → Text → Text
base_key doc_id agent_id = agent_id ++ 0 ∷ doc_id

abbrev pub on_presence : Text → Store → Assoc PresenceEntry
on_presence doc_id st = elim (lookup doc_id st.presence) [ none ↦ [] | some m ↦ m ]

-- `current?.activity === "editing" && current.at > now - PRESENCE_TTL_MS`.
abbrev pub still_editing : ℕ → Option PresenceEntry → Bool
still_editing now none = false
still_editing now (some e) = e.editing && ltb now (e.at + presence_ttl_ms)

abbrev pub caret_of : Option PresenceEntry → Option PresenceCaret
caret_of none = none
caret_of (some e) = e.caret

unfoldable pub mark : ℕ → Text → Text → Option Text → Bool → Option PresenceCaret → Store → Store
mark now doc_id agent_id human_id editing caret st =
    let on_doc = on_presence doc_id st in
    let current = lookup agent_id on_doc in
    let entry : PresenceEntry = record {
      agent_id = agent_id;
      human_id = human_id;
      editing = editing || still_editing now current;
      at = now;
      caret = or_option caret (caret_of current);
    } in
    record st { presence = insert doc_id (insert agent_id entry on_doc) st.presence }

-- Whether somebody else holds the lease.
abbrev pub held_by_other : Text → Option Lease → Option Lease
held_by_other actor none = none
held_by_other actor (some l) = if text_eq l.holder actor then none else some l
