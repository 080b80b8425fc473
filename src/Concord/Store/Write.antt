-- ===== src/Concord/Store/Write.antt =====
-- `read`, `write` and `writeAsHuman`.
use please_hire_me.Prelude.{
  ℕ, suc, ◌+◌, Bool, true, false, not, Option, none, some, List, [], ◌∷◌, ◌++◌, if◌then◌else◌, ◌==◌,
  length, keep_if, or_else, truthy, Text, codes, text_eq, Assoc, lookup, insert, starts_with,
}
use mathlib.Core.List.{reverse}
use please_hire_me.Concord.DocResource.{doc_resource}
use please_hire_me.Concord.Merge.{MergeConflict, merged, conflicted, merge3}
use please_hire_me.Concord.Provenance.{updated, violated}
use please_hire_me.Concord.Store.State.{
  Store, SharedDoc, AuthzCheck, workspace_read, workspace_write, PendingConflict, ConflictId,
  Breach, EventOutcome, ConcordEvent, ContributionOutcome, AgentContribution, HistoryEntry, emit,
  put_doc, ensure, reap_lease, base_key, mark, held_by_other,
}
use please_hire_me.Concord.Store.Messages.{slug_of}
use please_hire_me.Concord.Store.Commit.{
  WriteOptions, Committed, out_of_bounds, attribute_change, changed_doc, drawn_by, history_message,
  summarise_contribution, commit,
}

pub data ReadOutcome : Type 0 where
  read_ok : ℕ → Text → ReadOutcome
  read_denied : Text → Text → ReadOutcome

pub data WriteOutcome : Type 0 where
  written : Committed → WriteOutcome
  merged_in : Committed → ℕ → WriteOutcome
  conflict : ℕ → Text → List MergeConflict → ConflictId → WriteOutcome
  denied : Text → Text → WriteOutcome
  out_of_section : Breach → WriteOutcome
  leased : Text → ℕ → WriteOutcome

abbrev pub version_of : Option SharedDoc → ℕ
version_of none = 0
version_of (some doc) = doc.version

unfoldable pub read : AuthzCheck → ℕ → Text → Text → Store → Store × ReadOutcome
unfolding ensure reap_lease mark
read authorize now doc_id agent st =
    let verdict = authorize agent workspace_read (doc_resource doc_id) in
    if not verdict.allowed
    then (st, read_denied verdict.rule_id verdict.reason)
    else let doc = reap_lease now (ensure now doc_id st) in
      let put = put_doc doc_id doc st in
      let based = record put { bases = insert (base_key doc_id agent) doc.content put.bases } in
      (mark now doc_id agent verdict.human_id false none based, read_ok doc.version doc.content)

abbrev pub event : Text → Text → Option Text → EventOutcome → ℕ → ConcordEvent
event doc_id actor human outcome version = record {
  doc_id = doc_id;
  actor_id = actor;
  human_id = human;
  outcome = outcome;
  version = version;
}

module _ (uuid : ℕ → Text) (now : ℕ) (doc_id : Text) (agent : Text) (human : Option Text)
    (options : WriteOptions) where
  abbrev pub tell : EventOutcome → ℕ → Store → Store
  tell outcome version st = emit (event doc_id agent human outcome version) st

  unfoldable pub land_written : SharedDoc → Text → Store → Option (Store × WriteOutcome)
  unfolding commit
  land_written doc content st =
      elim (commit uuid now doc_id agent human options doc content ContributionOutcome.written st) [
        | none ↦ none
        | some (st', c) ↦ some (tell EventOutcome.written c.version st', written c)
      ]

  unfoldable pub land_merged : SharedDoc → Text → ℕ → ℕ → Store → Option (Store × WriteOutcome)
  unfolding commit
  land_merged doc content hunks expected st =
      elim (commit uuid now doc_id agent human options doc content ContributionOutcome.merged st) [
        | none ↦ none
        | some (st', c) ↦
            some (tell (EventOutcome.merged hunks expected) c.version st', merged_in c hunks)
      ]

  -- The refusal of a write that reaches outside its section; else what lands.
  abbrev pub guard_section :
      SharedDoc → Text → Store → Option (Store × WriteOutcome) → Option (Store × WriteOutcome)
  guard_section doc next st landed = elim (out_of_bounds st doc doc_id agent next) [
    | some breach ↦
        some (tell (EventOutcome.out_of_section breach) doc.version st, out_of_section breach)
    | none ↦ landed
  ]

  abbrev pub pending : SharedDoc → Text → Text → List MergeConflict → Store → PendingConflict
  pending doc base content cs st = record {
    id = record { seq = suc st.conflict_seq; slug = slug_of false doc_id };
    doc_id = doc_id;
    agent_id = agent;
    human_id = human;
    at = now;
    base = base;
    ours = content;
    theirs = doc.content;
    at_version = doc.version;
    conflicts = cs;
  }

  -- A refused merge is kept, in place of an earlier one of the same Agent.
  unfoldable pub keep_conflict :
      SharedDoc → Text → Text → List MergeConflict → Store → Store × WriteOutcome
  keep_conflict doc base content cs st =
      let p = pending doc base content cs st in
      let others =
        keep_if (λ (c : PendingConflict). not (text_eq c.agent_id agent)) doc.conflicts in
      let doc' = record doc { conflicts = others ++ p ∷ [] } in
      let st' = record (put_doc doc_id doc' st) { conflict_seq = suc st.conflict_seq } in
      (
        tell (EventOutcome.conflict p.id (length cs)) doc.version st',
        conflict doc.version doc.content cs p.id,
      )

  -- The document has moved: merge against what this Agent has read.
  unfoldable pub rebase : SharedDoc → ℕ → Text → Store → Option (Store × WriteOutcome)
  unfolding land_merged keep_conflict
  rebase doc expected content st =
      let base = or_else (lookup (base_key doc_id agent) st.bases) [] in
      elim (merge3 base content doc.content) [
        | merged next hunks ↦ guard_section doc next st (land_merged doc next hunks expected st)
        | conflicted cs ↦ some (keep_conflict doc base content cs st)
      ]

  -- What follows the entry of `write`: `doc` is the document, without a lease that has run out.
  unfoldable pub write_doc : SharedDoc → ℕ → Text → Store → Option (Store × WriteOutcome)
  unfolding land_written rebase
  write_doc doc expected content st = elim (held_by_other agent doc.lease) [
    | some l ↦
        some (tell (EventOutcome.leased l.holder) doc.version st, leased l.holder l.expires_at)
    | none ↦
        if expected == doc.version
        then guard_section doc content st (land_written doc content st)
        else rebase doc expected content st
  ]

-- The document and the store that a write works on.
abbrev pub entered : ℕ → Text → Store → SharedDoc
entered now doc_id st = reap_lease now (ensure now doc_id st)

abbrev pub entry_store : ℕ → Text → Text → Option Text → Store → Store
entry_store now doc_id agent human st =
    mark now doc_id agent human true none (put_doc doc_id (entered now doc_id st) st)

-- `none` is the exception that the attribution may raise.
unfoldable pub write :
    (ℕ → Text)
    → AuthzCheck
    → ℕ
    → Text
    → Text
    → ℕ
    → Text
    → WriteOptions
    → Store
    → Option (Store × WriteOutcome)
unfolding write_doc ensure reap_lease mark
write uuid authorize now doc_id agent expected content options st =
    let verdict = authorize agent workspace_write (doc_resource doc_id) in
    if not verdict.allowed
    then some (
      emit
          (event doc_id agent verdict.human_id (EventOutcome.denied verdict.rule_id verdict.reason)
            (version_of (lookup doc_id st.docs)))
          st,
      denied verdict.rule_id verdict.reason,
    )
    else write_doc uuid now doc_id agent verdict.human_id options (entered now doc_id st) expected
        content (entry_store now doc_id agent verdict.human_id st)

pub data HumanOutcome : Type 0 where
  human_written : Committed → HumanOutcome
  stale : ℕ → Text → HumanOutcome
  human_leased : Text → ℕ → HumanOutcome

-- `key.endsWith("\u0000" + docId)`.
abbrev pub is_base_of : Text → Text → Bool
is_base_of doc_id key = starts_with (reverse (0 ∷ doc_id)) (reverse key)

unfoldable pub forget_bases : Text → Assoc Text → Assoc Text
forget_bases doc_id [] = []
forget_bases doc_id ((k, v) ∷ m) =
    let rest = forget_bases doc_id m in if is_base_of doc_id k then rest else (k, v) ∷ rest

unfoldable pub commit_by_hand :
    (ℕ → Text)
    → ℕ
    → Text
    → Text
    → SharedDoc
    → Text
    → WriteOptions
    → Store
    → Option (Store × HumanOutcome)
unfolding attribute_change forget_bases
commit_by_hand uuid now doc_id human doc content options st =
    elim (attribute_change uuid now doc none (some human) content st.drawn) [
      | violated _ _ ↦ none
      | updated u ↦
          let contribution : AgentContribution = record {
            id = uuid st.drawn;
            document_id = doc_id;
            agent_id = none;
            human_id = some human;
            run_id = options.run_id;
            base_version = doc.version;
            resulting_version = doc.version + 1;
            outcome = ContributionOutcome.written;
            changed_line_ids = u.changed_line_ids;
            summary =
                summarise_contribution (some (or_else options.message (codes "edited by hand")))
                  (length u.changed_line_ids);
            created_at = now;
            caret = none;
          } in
          let entry : HistoryEntry = record {
            version = doc.version + 1;
            agent_id = human;
            human_id = some human;
            at = now;
            message = history_message (truthy options.message);
            contribution_id = some (uuid st.drawn);
          } in
          let doc' = changed_doc now doc human content u contribution entry in
          let put = put_doc doc_id doc' st in
          some (
            emit (event doc_id human (some human) EventOutcome.written_by_hand doc'.version)
                (record put {
                  bases = forget_bases doc_id put.bases;
                  drawn = put.drawn + drawn_by doc content;
                }),
            human_written (record {
              version = doc'.version;
              content = content;
              contribution_id = uuid st.drawn;
            }),
          )
    ]

unfoldable pub write_as_human :
    (ℕ → Text) → ℕ → Text → Text → ℕ → Text → WriteOptions → Store → Option (Store × HumanOutcome)
unfolding commit_by_hand ensure reap_lease
write_as_human uuid now doc_id human expected content options st =
    let doc = entered now doc_id st in
    let put = put_doc doc_id doc st in
    elim (held_by_other human doc.lease) [
      | some l ↦ some (
        emit (event doc_id human (some human) (EventOutcome.leased l.holder) doc.version) put,
        human_leased l.holder l.expires_at,
      )
      | none ↦
          if expected == doc.version
          then commit_by_hand uuid now doc_id human doc content options put
          else some (put, stale doc.version doc.content)
    ]
