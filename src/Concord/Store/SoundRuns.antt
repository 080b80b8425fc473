-- ===== src/Concord/Store/SoundRuns.antt =====
-- Every run of operations keeps a store sound.
use please_hire_me.Prelude.{
  ℕ, suc, ◌≡◌, refl, ap, inl, inr, Bool, false, not, ◌&&◌, Option, none, some, List, [], ◌∷◌,
  Bool-cases, Option-cases, find?, length, Text, lookup, ◌==◌,
}
use please_hire_me.Concord.DocResource.{doc_resource}
use please_hire_me.Concord.Merge.{Line, MergeConflict, merge3, split_lines}
use please_hire_me.Concord.Provenance.{seed_provenance, seed_lines}
use please_hire_me.Concord.Store.State.{
  Store, SharedDoc, AuthzCheck, workspace_read, workspace_write, PendingConflict, ConflictId,
  put_doc, ensure, mark, held_by_other,
}
use please_hire_me.Concord.Store.Commit.{WriteOptions}
use please_hire_me.Concord.Store.Write.{
  read, write, entered, entry_store, commit_by_hand, write_as_human,
}
use please_hire_me.Concord.Store.Resolve.{
  resolve, resolve_pending, settle, keep_contested, renewed, find_pending, same_conflict, is_owner,
}
use please_hire_me.Concord.Store.Leases.{acquire_lease, release_lease, holds}
use please_hire_me.Concord.Store.Views.{presence_of, live_presence, seed}
use please_hire_me.Concord.Store.Effects.{attribute_change-total, result-cases}
use please_hire_me.Concord.Store.Settling.{found}
use please_hire_me.Concord.Store.Runs.{
  Op, reads, writes, writes_by_hand, resolves, acquires, releases, shows, seeds, step, run,
  SoundDoc, Sound,
}
use please_hire_me.Concord.Store.Soundness.{
  keep_if-Pairwise, keep_if-IsNumbered, replace_conflict-Pairwise, replace_conflict-IsNumbered,
  insert-SoundDocs, ensure-SoundDoc, entered-SoundDoc,
}
use please_hire_me.Concord.Store.Steps.{Left, after-Left, write_doc-Left}

put-Sound :
    (now : ℕ) (doc_id : Text) (st : Store)
    → Sound st
    → Sound (put_doc doc_id (entered now doc_id st) st)
put-Sound now doc_id st s =
    insert-SoundDocs st.conflict_seq doc_id (entered now doc_id st) st.docs s
      (entered-SoundDoc st.conflict_seq now doc_id st s)

read-Sound :
    (authorize : AuthzCheck) (now : ℕ) (doc_id agent : Text) (st : Store)
    → Sound st
    → Sound (read authorize now doc_id agent st).0
unfolding read mark
read-Sound authorize now doc_id agent st s =
    elim (Bool-cases (authorize agent workspace_read (doc_resource doc_id)).allowed) [
      | inl e ↦ rw (e, read) (put-Sound now doc_id st s)
      | inr e ↦ rw (e, read) s
    ]

write-Left :
    (uuid : ℕ → Text) (authorize : AuthzCheck) (now : ℕ) (doc_id agent : Text) (expected : ℕ)
    (content : Text) (options : WriteOptions) (st : Store)
    → Sound st
    → Left (write uuid authorize now doc_id agent expected content options st)
unfolding write mark
write-Left uuid authorize now doc_id agent expected content options st s =
    let verdict = authorize agent workspace_write (doc_resource doc_id) in
    elim (Bool-cases verdict.allowed) [
      | inl e ↦
          rw (e, write)
            (write_doc-Left uuid now doc_id agent verdict.human_id options (entered now doc_id st)
              expected content (entry_store now doc_id agent verdict.human_id st)
              (put-Sound now doc_id st s) (entered-SoundDoc st.conflict_seq now doc_id st s))
      | inr e ↦ rw (e, write) s
    ]

commit_by_hand-Left :
    (uuid : ℕ → Text) (now : ℕ) (doc_id human : Text) (doc : SharedDoc) (content : Text)
    (options : WriteOptions) (st : Store)
    → Sound st
    → SoundDoc st.conflict_seq doc
    → Left (commit_by_hand uuid now doc_id human doc content options st)
unfolding commit_by_hand
commit_by_hand-Left uuid now doc_id human doc content options st s h =
    let (u, e, n) = attribute_change-total uuid now doc none (some human) content st.drawn in
    rw (e, commit_by_hand) (insert-SoundDocs st.conflict_seq doc_id _ st.docs s (inl n, h.1))

write_as_human-Left :
    (uuid : ℕ → Text) (now : ℕ) (doc_id human : Text) (expected : ℕ) (content : Text)
    (options : WriteOptions) (st : Store)
    → Sound st
    → Left (write_as_human uuid now doc_id human expected content options st)
unfolding write_as_human
write_as_human-Left uuid now doc_id human expected content options st s =
    let doc = entered now doc_id st in
    let put = put-Sound now doc_id st s in
    elim (Option-cases (held_by_other human doc.lease)) [
      | inr (l, e) ↦ rw (e, write_as_human) put
      | inl e ↦ elim (Bool-cases (expected == doc.version)) [
        | inl f ↦
            rw (e, f, write_as_human)
              (commit_by_hand-Left uuid now doc_id human doc content options (put_doc doc_id doc st)
                put (entered-SoundDoc st.conflict_seq now doc_id st s))
        | inr f ↦ rw (e, f, write_as_human) put
      ]
    ]

module _ (uuid : ℕ → Text) (now : ℕ) (doc_id : Text) (id : ConflictId) (human chosen : Text) where
  settle-Left :
      (doc : SharedDoc) (p : PendingConflict) (next : Text) (st : Store)
      → Sound st
      → SoundDoc st.conflict_seq doc
      → Left (settle uuid now doc_id id human chosen doc p next st)
  unfolding settle
  settle-Left doc p next st s (one, (apart, low)) =
      let keep = λ (q : PendingConflict). not (same_conflict id q) in
      let (u, e, n) = attribute_change-total uuid now doc (some human) none next st.drawn in
      rw (e, settle)
        (insert-SoundDocs st.conflict_seq doc_id _ st.docs s (
          inl n,
          (
            keep_if-Pairwise keep doc.conflicts apart,
            keep_if-IsNumbered st.conflict_seq keep doc.conflicts low,
          ),
        ))

  keep_contested-Sound :
      (doc : SharedDoc) (p : PendingConflict) (cs : List MergeConflict) (st : Store)
      → find? (same_conflict id) doc.conflicts ≡ some p
      → Sound st
      → SoundDoc st.conflict_seq doc
      → Sound (keep_contested uuid now doc_id id human chosen doc p cs st).0
  unfolding keep_contested
  keep_contested-Sound doc p cs st e s (one, (apart, low)) =
      let next = renewed uuid now doc_id id human chosen doc p cs in
      insert-SoundDocs st.conflict_seq doc_id _ st.docs s (
        one,
        (
          replace_conflict-Pairwise id next p doc.conflicts e refl refl apart,
          replace_conflict-IsNumbered st.conflict_seq id next p doc.conflicts e refl low,
        ),
      )

  resolve-Left :
      (is_orchestrator : Bool) (st : Store)
      → Sound st
      → Left (resolve uuid now doc_id id human chosen is_orchestrator st)
  unfolding resolve resolve_pending
  resolve-Left is_orchestrator st s =
      elim (Option-cases (find_pending uuid now doc_id id human chosen st)) [
        | inl e ↦ rw (e, resolve) s
        | inr ((doc, p), e) ↦
            let (f, g) = found uuid now doc_id id human chosen is_orchestrator st doc p e in
            elim (Bool-cases (not is_orchestrator && not (is_owner p.human_id human))) [
              | inl h ↦ rw (e, resolve, resolve_pending, h) s
              | inr h ↦ elim (result-cases (merge3 p.theirs chosen doc.content)) [
                | inl (next, hunks, m) ↦
                    rw (e, resolve, resolve_pending, h, m)
                      (settle-Left doc p next st s (s doc_id doc f))
                | inr (cs, m) ↦
                    rw (e, resolve, resolve_pending, h, m)
                      (keep_contested-Sound doc p cs st g s (s doc_id doc f))
              ]
            ]
      ]

acquire_lease-Sound :
    (authorize : AuthzCheck) (now : ℕ) (doc_id agent : Text) (ttl_ms : Option ℕ) (st : Store)
    → Sound st
    → Sound (acquire_lease authorize now doc_id agent ttl_ms st).0
unfolding acquire_lease mark
acquire_lease-Sound authorize now doc_id agent ttl_ms st s =
    elim (Bool-cases (authorize agent workspace_write (doc_resource doc_id)).allowed) [
      | inl e ↦ elim (Option-cases (held_by_other agent (entered now doc_id st).lease)) [
        | inl f ↦
            rw (e, f, acquire_lease)
              (insert-SoundDocs st.conflict_seq doc_id _ st.docs s
                (entered-SoundDoc st.conflict_seq now doc_id st s))
        | inr (l, f) ↦ rw (e, f, acquire_lease) (put-Sound now doc_id st s)
      ]
      | inr e ↦ rw (e, acquire_lease) s
    ]

release_lease-Sound :
    (authorize : AuthzCheck) (now : ℕ) (doc_id agent : Text) (st : Store)
    → Sound st
    → Sound (release_lease authorize now doc_id agent st).0
unfolding release_lease
release_lease-Sound authorize now doc_id agent st s =
    elim (Bool-cases (authorize agent workspace_write (doc_resource doc_id)).allowed) [
      | inl e ↦ elim (Bool-cases (holds agent (entered now doc_id st).lease)) [
        | inl f ↦
            rw (e, f, release_lease)
              (insert-SoundDocs st.conflict_seq doc_id _ st.docs s
                (entered-SoundDoc st.conflict_seq now doc_id st s))
        | inr f ↦ rw (e, f, release_lease) (put-Sound now doc_id st s)
      ]
      | inr e ↦ rw (e, release_lease) s
    ]

live_presence-Sound :
    (now : ℕ) (doc_id : Text) (st : Store) → Sound st → Sound (live_presence now doc_id st).0
unfolding live_presence
live_presence-Sound now doc_id st s = elim (Option-cases (lookup doc_id st.presence)) [
  | inl e ↦ rw (e, live_presence) s
  | inr (m, e) ↦ rw (e, live_presence) s
]

presence_of-Sound :
    (authorize : AuthzCheck) (now : ℕ) (doc_id agent : Text) (st : Store)
    → Sound st
    → Sound (presence_of authorize now doc_id agent st).0
unfolding presence_of mark
presence_of-Sound authorize now doc_id agent st s =
    let verdict = authorize agent workspace_read (doc_resource doc_id) in
    elim (Bool-cases verdict.allowed) [
      | inl e ↦
          rw (e, presence_of)
            (live_presence-Sound now doc_id (mark now doc_id agent verdict.human_id false none st)
              s)
      | inr e ↦ rw (e, presence_of) s
    ]

seed_lines-length :
    (uuid : ℕ → Text) (n : ℕ) (ls : List Line) (version at : ℕ)
    → length (seed_lines uuid n ls version at) ≡ length ls
unfolding seed_lines
seed_lines-length uuid n [] version at = refl
seed_lines-length uuid n (l ∷ ls) version at = ap suc (seed_lines-length uuid (suc n) ls version at)

seed-Sound :
    (uuid : ℕ → Text) (now : ℕ) (doc_id content : Text) (st : Store)
    → Sound st
    → Sound (seed uuid now doc_id content st)
unfolding seed seed_provenance
seed-Sound uuid now doc_id content st s = insert-SoundDocs st.conflict_seq doc_id _ st.docs s (
  inl (seed_lines-length uuid st.drawn (split_lines content) 1 (ensure now doc_id st).updated_at),
  (ensure-SoundDoc st.conflict_seq now doc_id st s).1,
)

step-Sound :
    (uuid : ℕ → Text) (authorize : AuthzCheck) (now : ℕ) (doc_id : Text) (op : Op) (st : Store)
    → Sound st
    → Sound (step uuid authorize now doc_id op st)
step-Sound uuid authorize now doc_id (reads agent) st s = read-Sound authorize now doc_id agent st s
step-Sound uuid authorize now doc_id (writes agent expected content options) st s =
    after-Left st _ s (write-Left uuid authorize now doc_id agent expected content options st s)
step-Sound uuid authorize now doc_id (writes_by_hand human expected content options) st s =
    after-Left st _ s (write_as_human-Left uuid now doc_id human expected content options st s)
step-Sound uuid authorize now doc_id (resolves id human is_orchestrator chosen) st s =
    after-Left st _ s (resolve-Left uuid now doc_id id human chosen is_orchestrator st s)
step-Sound uuid authorize now doc_id (acquires agent ttl_ms) st s =
    acquire_lease-Sound authorize now doc_id agent ttl_ms st s
step-Sound uuid authorize now doc_id (releases agent) st s =
    release_lease-Sound authorize now doc_id agent st s
step-Sound uuid authorize now doc_id (shows agent) st s =
    presence_of-Sound authorize now doc_id agent st s
step-Sound uuid authorize now doc_id (seeds content) st s = seed-Sound uuid now doc_id content st s

-- Any run of operations from a sound store, under any policy, ends in a sound store: each document
-- that has been written has one entry of provenance for each line, and its open conflicts are of
-- different Agents and have different numbers, none of them above the counter.
pub run-Sound :
    (uuid : ℕ → Text) (authorize : AuthzCheck) (ops : List (ℕ × (Text × Op))) (st : Store)
    → Sound st
    → Sound (run uuid authorize ops st)
unfolding run
run-Sound uuid authorize [] st s = s
run-Sound uuid authorize ((now, (doc_id, op)) ∷ ops) st s =
    run-Sound uuid authorize ops (step uuid authorize now doc_id op st)
      (step-Sound uuid authorize now doc_id op st s)
