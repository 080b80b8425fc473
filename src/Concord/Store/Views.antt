-- ===== src/Concord/Store/Views.antt =====
-- What the store shows: presence, history, the listing, and the open conflicts; and `seed`.
use please_hire_me.Prelude.{
  ℕ, ◌+◌, Bool, false, not, ◌||◌, Option, none, some, List, [], ◌∷◌, ◌++◌, if◌then◌else◌, ltb,
  length, any, keep_if, Text, text_eq, Assoc, lookup, insert, values,
}
use please_hire_me.Concord.DocResource.{doc_resource}
use please_hire_me.Concord.Provenance.{LineProvenance, seed_provenance}
use please_hire_me.Concord.Store.State.{
  Store, SharedDoc, AuthzCheck, workspace_read, Lease, PendingConflict, PresenceEntry, HistoryEntry,
  AgentContribution, presence_ttl_ms, put_doc, ensure, mark,
}
use please_hire_me.Concord.Store.Resolve.{is_owner}

-- `entry.at > cutoff`.
abbrev pub is_fresh : ℕ → PresenceEntry → Bool
is_fresh now e = ltb now (e.at + presence_ttl_ms)

-- The loop that deletes the stale entries.
unfoldable pub drop_stale : ℕ → Assoc PresenceEntry → Assoc PresenceEntry
drop_stale now [] = []
drop_stale now ((k, e) ∷ m) =
    let rest = drop_stale now m in if is_fresh now e then (k, e) ∷ rest else rest

-- `sort((a, b) => b.at - a.at)`, which is stable.
unfoldable pub insert_recent : PresenceEntry → List PresenceEntry → List PresenceEntry
insert_recent e [] = e ∷ []
insert_recent e (x ∷ xs) = if ltb e.at x.at then x ∷ insert_recent e xs else e ∷ x ∷ xs

unfoldable pub most_recent : List PresenceEntry → List PresenceEntry
unfolding insert_recent
most_recent [] = []
most_recent (x ∷ xs) = insert_recent x (most_recent xs)

unfoldable pub live_presence : ℕ → Text → Store → Store × List PresenceEntry
unfolding drop_stale most_recent
live_presence now doc_id st = elim (lookup doc_id st.presence) [
  | none ↦ (st, [])
  | some m ↦ (
    record st { presence = insert doc_id (drop_stale now m) st.presence },
    most_recent (values (drop_stale now m)),
  )
]

pub data PresenceOutcome : Type 0 where
  present : List PresenceEntry → PresenceOutcome
  presence_denied : Text → Text → PresenceOutcome

unfoldable pub presence_of : AuthzCheck → ℕ → Text → Text → Store → Store × PresenceOutcome
unfolding live_presence mark
presence_of authorize now doc_id agent st =
    let verdict = authorize agent workspace_read (doc_resource doc_id) in
    if not verdict.allowed
    then (st, presence_denied verdict.rule_id verdict.reason)
    else let (st', entries) =
        live_presence now doc_id (mark now doc_id agent verdict.human_id false none st) in
      (st', present entries)

pub data HistoryOutcome : Type 0 where
  history : SharedDoc → HistoryOutcome
  history_denied : Text → Text → HistoryOutcome
  missing : HistoryOutcome

unfoldable pub read_history : AuthzCheck → Text → Text → Store → HistoryOutcome
read_history authorize doc_id agent st =
    let verdict = authorize agent workspace_read (doc_resource doc_id) in
    if not verdict.allowed
    then history_denied verdict.rule_id verdict.reason
    else elim (lookup doc_id st.docs) [ none ↦ missing | some doc ↦ history doc ]

unfoldable pub snapshot : Text → Store → Option SharedDoc
snapshot doc_id st = lookup doc_id st.docs

pub record ListedDoc : Type 0 where
  pub id : Text
  pub version : ℕ
  pub leased_by : Option Text
  pub writers : ℕ
  pub conflicts : ℕ
  pub present : List PresenceEntry
  pub updated_at : ℕ
  pub updated_by : Option Text

abbrev pub running_holder : ℕ → Option Lease → Option Text
running_holder now none = none
running_holder now (some l) = if ltb now l.expires_at then some l.holder else none

-- `new Set(doc.history.map((h) => h.agentId))`.
unfoldable pub distinct_writers : List HistoryEntry → List Text → List Text
distinct_writers [] found = found
distinct_writers (h ∷ hs) found =
    distinct_writers hs (if any (text_eq h.agent_id) found then found else found ++ h.agent_id ∷ [])

-- The map over the documents; each looks at presence, which drops what is stale.
unfoldable pub list_docs : ℕ → List SharedDoc → Store → Store × List ListedDoc
unfolding live_presence distinct_writers
list_docs now [] st = (st, [])
list_docs now (doc ∷ docs) st =
    let (st', entries) = live_presence now doc.id st in
    let (st'', rest) = list_docs now docs st' in
    (
      st'',
      record {
        id = doc.id;
        version = doc.version;
        leased_by = running_holder now doc.lease;
        writers = length (distinct_writers doc.history []);
        conflicts = length doc.conflicts;
        present = entries;
        updated_at = doc.updated_at;
        updated_by = doc.updated_by;
      }
          ∷ rest,
    )

unfoldable pub list : AuthzCheck → ℕ → Text → Store → Store × List ListedDoc
unfolding list_docs
list authorize now agent st =
    list_docs now
      (keep_if (λ (doc : SharedDoc). (authorize agent workspace_read (doc_resource doc.id)).allowed)
        (values st.docs))
      st

-- `flatMap((doc) => doc.conflicts)`.
unfoldable pub all_conflicts : List SharedDoc → List PendingConflict
all_conflicts [] = []
all_conflicts (doc ∷ docs) = doc.conflicts ++ all_conflicts docs

unfoldable pub conflicts_for : Text → Bool → Store → List PendingConflict
unfolding all_conflicts
conflicts_for human is_orchestrator st =
    keep_if (λ (p : PendingConflict). is_orchestrator || is_owner p.human_id human)
      (all_conflicts (values st.docs))

unfoldable pub provenance_of : Text → Store → List LineProvenance
provenance_of doc_id st = elim (lookup doc_id st.docs) [ none ↦ [] | some doc ↦ doc.provenance ]

unfoldable pub contributions_of : Text → Store → List AgentContribution
contributions_of doc_id st = elim (lookup doc_id st.docs) [
  | none ↦ []
  | some doc ↦ doc.contributions
]

unfoldable pub seed : (ℕ → Text) → ℕ → Text → Text → Store → Store
unfolding ensure seed_provenance
seed uuid now doc_id content st =
    let doc = ensure now doc_id st in
    let lines = seed_provenance uuid st.drawn content 1 doc.updated_at in
    record (put_doc doc_id (record doc { content = content; provenance = lines; version = 1 }) st) {
      drawn = st.drawn + length lines;
    }
