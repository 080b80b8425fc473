-- ===== src/Concord/Store/ConflictExamples.antt =====
-- A conflict, its settlement, a lease and presence on a small document.
use please_hire_me.Prelude.{
  ℕ, suc, ◌+◌, ◌≡◌, ◌≢◌, ◌⊎◌, ◌↔◌, ◌<◌, refl, inl, inr, Bool, true, false, Option, none, some, List,
  [], ◌∷◌, arith, length, In, All, Text, codes, lookup, values,
}
use please_hire_me.Concord.Merge.{MergeConflict, join_lines}
use please_hire_me.Concord.Store.State.{
  Store, SharedDoc, AuthzCheck, Lease, PendingConflict, ConflictId,
}
use please_hire_me.Concord.Store.Commit.{WriteOptions}
use please_hire_me.Concord.Store.Write.{write, leased}
use please_hire_me.Concord.Store.Resolve.{
  ResolveOutcome, not_found, resolve, find_pending, same_conflict,
}
use please_hire_me.Concord.Store.Settling.{Settlement, resolve_effect}
use please_hire_me.Concord.Store.Leases.{acquire_lease, acquired}
use please_hire_me.Concord.Store.Exclusion.{acquire_lease-write}
use please_hire_me.Concord.Store.KeepBoth.{keep_both, lines_of}
use please_hire_me.Concord.Store.BothKept.{IsSubsequence, IsBehind, keep_both-IsBehind}
use please_hire_me.Concord.Store.Anchors.{WonAt}
use please_hire_me.Concord.Store.Sizes.{losing_lines}
use please_hire_me.Concord.Store.Runs.{Op, reads, writes, seeds, run, Sound}
use please_hire_me.Concord.Store.SoundRuns.{run-Sound}

abbrev draw : ℕ → Text
draw n = b'u' ∷ n ∷ []

abbrev doc : Text
doc = codes "doc"

-- Everything is allowed.
abbrev open_policy : AuthzCheck
open_policy agent action resource = record {
  allowed = true;
  rule_id = codes "WB-0";
  reason = codes "open";
  human_id = none;
}

abbrev clash : MergeConflict
clash = record { base_start = 0; base_end = 1; ours = codes "A" ∷ []; theirs = codes "x" ∷ [] }

abbrev cf1 : ConflictId
cf1 = record { seq = 1; slug = doc }

abbrev open_conflict : PendingConflict
open_conflict = record {
  id = cf1;
  doc_id = doc;
  agent_id = codes "ada";
  human_id = some (codes "human:ada");
  at = 10;
  base = codes "a\nb";
  ours = codes "A\nb";
  theirs = codes "x\nb";
  at_version = 1;
  conflicts = clash ∷ [];
}

abbrev document : SharedDoc
document = record {
  id = doc;
  version = 2;
  content = codes "x\nb\nc";
  updated_at = 12;
  updated_by = some (codes "ben");
  lease = none;
  history = [];
  conflicts = open_conflict ∷ [];
  provenance = [];
  contributions = [];
}

abbrev contested_store : Store
contested_store = record {
  docs = (doc, document) ∷ [];
  bases = [];
  presence = [];
  conflict_seq = 1;
  sections = [];
  events = [];
  drawn = 0;
}

resolve_effect_example :
    ((find_pending draw 20 doc cf1 (codes "human:ada") (codes "A\nb") contested_store ≡ none)
      × (resolve draw 20 doc cf1 (codes "human:ada") (codes "A\nb") false contested_store
          ≡ some (contested_store, not_found)))
    ⊎ ((d : SharedDoc) × (p : PendingConflict) × (lookup doc contested_store.docs ≡ some d)
        × In p d.conflicts
        × (same_conflict cf1 p ≡ true)
        × ((st' : Store) × (out : ResolveOutcome) × (resolve draw 20 doc cf1
                (codes "human:ada")
                (codes "A\nb")
                false
                contested_store
              ≡ some (st', out))
            × Settlement doc cf1
                (codes "human:ada")
                (codes "A\nb")
                false
                d
                p
                contested_store
                st'
                out))
resolve_effect_example =
    resolve_effect draw 20 doc cf1 (codes "human:ada") (codes "A\nb") false contested_store

abbrev lease_of_ada : Lease
lease_of_ada = record {
  holder = codes "ada";
  human_id = none;
  acquired_at = 20;
  expires_at = 30_020;
}

lease_run :
    (acquire_lease open_policy 20 doc (codes "ada") none contested_store).1 ≡ acquired lease_of_ada
unfolding acquire_lease lookup please_hire_me.Prelude.text_eq
lease_run = refl

abbrev plain : WriteOptions
plain = record { message = none; run_id = none }

not_ada : codes "ada" ≢ codes "ad"
not_ada e = cc

acquire_lease-write_example :
    (d : SharedDoc) × (st' : Store) × (lookup doc
        (acquire_lease open_policy 20 doc (codes "ada") none contested_store).0.docs
      ≡ some d)
    × (write draw open_policy 500 doc
          (codes "ad")
          2
          (codes "y")
          plain
          (acquire_lease open_policy 20 doc (codes "ada") none contested_store).0
        ≡ some (st', leased (codes "ada") 30_020))
    × (lookup doc st'.docs ≡ some d)
acquire_lease-write_example =
    acquire_lease-write draw open_policy 20 500 doc (codes "ada") (codes "ad") none 2 (codes "y")
      plain contested_store lease_of_ada lease_run not_ada (omega arith) refl

keep_both-IsBehind_example :
    (out : List Text) × (keep_both (codes "x\nb") (clash ∷ []) ≡ join_lines out)
    × IsSubsequence (lines_of (codes "x\nb")) out
    × (length out ≡ length (lines_of (codes "x\nb")) + losing_lines (clash ∷ []))
    × ((front : List Text) × (back : List Text) × WonAt
          (codes "x" ∷ [])
          (lines_of (codes "x\nb"))
          front
          back
        × IsBehind front (codes "A" ∷ []) back out)
keep_both-IsBehind_example = keep_both-IsBehind (codes "x\nb") (clash ∷ []) clash (inl refl)

both_run : keep_both (codes "x\nb") (clash ∷ []) ≡ codes "x\nA\nb"
unfolding keep_both join_lines please_hire_me.Prelude.join_with
    please_hire_me.Concord.Merge.split_lines please_hire_me.Prelude.split_on
    please_hire_me.Prelude.text_eq
both_run = refl

abbrev empty_store : Store
empty_store = record contested_store { docs = [] }

empty_store-Sound : Sound empty_store
unfolding lookup
empty_store-Sound id d e = cc

abbrev operations : List (ℕ × (Text × Op))
operations =
    (1, (doc, seeds (codes "a\nb")))
    ∷ (2, (doc, reads (codes "ada")))
    ∷ (3, (doc, writes (codes "ben") 1 (codes "x\nb") plain))
    ∷ (4, (doc, writes (codes "ada") 1 (codes "A\nb") plain))
    ∷ []

run-Sound_example : Sound (run draw open_policy operations empty_store)
run-Sound_example = run-Sound draw open_policy operations empty_store empty_store-Sound
