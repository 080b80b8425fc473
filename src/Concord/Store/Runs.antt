-- ===== src/Concord/Store/Runs.antt =====
-- The operations on a store, one after the other, and what every store that they reach has.
use please_hire_me.Prelude.{
  ℕ, ◌≡◌, ◌≢◌, ◌⊎◌, ◌≤◌, Bool, Option, none, some, List, [], ◌∷◌, All, Text, Assoc, lookup,
}
use please_hire_me.Concord.Store.State.{Store, SharedDoc, AuthzCheck, PendingConflict, ConflictId}
use please_hire_me.Concord.Store.Commit.{WriteOptions}
use please_hire_me.Concord.Store.Write.{read, write, write_as_human}
use please_hire_me.Concord.Store.Resolve.{resolve}
use please_hire_me.Concord.Store.Leases.{acquire_lease, release_lease}
use please_hire_me.Concord.Store.Views.{presence_of, seed}
use please_hire_me.Concord.Store.Promises.{OneEach}

-- An operation on one document.
pub data Op : Type 0 where
  reads : Text → Op
  writes : Text → ℕ → Text → WriteOptions → Op
  writes_by_hand : Text → ℕ → Text → WriteOptions → Op
  resolves : ConflictId → Text → Bool → Text → Op
  acquires : Text → Option ℕ → Op
  releases : Text → Op
  shows : Text → Op
  seeds : Text → Op

-- The store after an operation; an exception leaves it as it was.
abbrev pub after : {A : Type 0} → Store → Option (Store × A) → Store
after st none = st
after st (some (st', out)) = st'

module _ (uuid : ℕ → Text) (authorize : AuthzCheck) where
  abbrev pub step : ℕ → Text → Op → Store → Store
  step now doc_id (reads agent) st = (read authorize now doc_id agent st).0
  step now doc_id (writes agent expected content options) st =
      after st (write uuid authorize now doc_id agent expected content options st)
  step now doc_id (writes_by_hand human expected content options) st =
      after st (write_as_human uuid now doc_id human expected content options st)
  step now doc_id (resolves id human is_orchestrator chosen) st =
      after st (resolve uuid now doc_id id human chosen is_orchestrator st)
  step now doc_id (acquires agent ttl_ms) st =
      (acquire_lease authorize now doc_id agent ttl_ms st).0
  step now doc_id (releases agent) st = (release_lease authorize now doc_id agent st).0
  step now doc_id (shows agent) st = (presence_of authorize now doc_id agent st).0
  step now doc_id (seeds content) st = seed uuid now doc_id content st

  -- A run: each operation at its instant and on its document.
  unfoldable pub run : List (ℕ × (Text × Op)) → Store → Store
  run [] st = st
  run ((now, (doc_id, op)) ∷ ops) st = run ops (step now doc_id op st)

-- Two conflicts of different Agents, with different numbers.
abbrev pub Apart : PendingConflict → PendingConflict → Type 0
Apart p q = (p.agent_id ≢ q.agent_id) × (p.id.seq ≢ q.id.seq)

abbrev pub Pairwise : List PendingConflict → Type 0
Pairwise [] = Unit {0}
Pairwise (p ∷ ps) = All (Apart p) ps × Pairwise ps

-- A conflict that was numbered already when the counter stood at `n`.
abbrev pub IsNumbered : ℕ → PendingConflict → Type 0
IsNumbered n p = p.id.seq ≤ n

abbrev pub SoundDoc : ℕ → SharedDoc → Type 0
SoundDoc n doc =
    (OneEach doc ⊎ (doc.version ≡ 0)) × (Pairwise doc.conflicts × All (IsNumbered n) doc.conflicts)

abbrev pub SoundDocs : ℕ → Assoc SharedDoc → Type 0
SoundDocs n docs = (id : Text) (doc : SharedDoc) → lookup id docs ≡ some doc → SoundDoc n doc

-- Each document that has been written has one entry of provenance for each line, and its open
-- conflicts are of different Agents and have different numbers, all of them drawn already.
abbrev pub Sound : Store → Type 0
Sound st = SoundDocs st.conflict_seq st.docs
