-- ===== src/Concord/Store/ByHand.antt =====
-- What a write by a person does, on every branch.
use please_hire_me.Prelude.{ℕ, ◌≡◌, ◌≢◌, none, some, Text, lookup}
use please_hire_me.Concord.Store.State.{Store, SharedDoc, Lease, base_key, held_by_other}
use please_hire_me.Concord.Store.Write.{HumanOutcome, human_written, stale, human_leased}
use please_hire_me.Concord.Store.Promises.{Landed, Kept}

-- No Agent is known to have read the document.
abbrev pub Unread : Text → Store → Type 0
Unread doc_id st' = (agent : Text) → lookup (base_key doc_id agent) st'.bases ≡ none

abbrev pub HumanEffect : Text → Text → SharedDoc → ℕ → Text → Store → HumanOutcome → Type 0
HumanEffect doc_id human doc expected content st' (human_written c) =
    (expected ≡ doc.version)
    × (c.content ≡ content)
    × Landed doc_id doc content st'
    × Unread doc_id st'
HumanEffect doc_id human doc expected content st' (stale version text) =
    (expected ≢ doc.version) × (version ≡ doc.version) × (text ≡ doc.content) × Kept doc_id doc st'
HumanEffect doc_id human doc expected content st' (human_leased holder ends) =
    (l : Lease) × (held_by_other human doc.lease ≡ some l)
    × (holder ≡ l.holder)
    × (ends ≡ l.expires_at)
    × Kept doc_id doc st'
