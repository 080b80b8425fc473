-- ===== src/Review/Runs.antt =====
-- apps/server/src/review/service.ts: runs of a re-iteration. `owns_agent` is the caller's predicate.
pub mod Planning
pub mod Closing
pub mod Grouping
use please_hire_me.Prelude.{
  ℕ, ◌+◌, ◌==◌, Bool, true, false, not, ◌&&◌, ◌||◌, Option, none, some, List, [], ◌∷◌, ◌++◌, map,
  if◌then◌else◌, ltb, leb, length, take, any, or_else, is_some, truthy, Text, codes, text_eq, Assoc,
  lookup, insert, values,
}
use mathlib.Core.Option
use please_hire_me.Concord.Store.State.{Store}
use please_hire_me.Review.Types.{
  CommentStatus, pending, in_progress, addressed, resolved, blocked, ReviewComment,
  ReiterationStatus, ReiterationRun, queued, human, agent, reiteration_started,
  reiteration_completed, reiteration_failed, sent, reiterated,
}
use please_hire_me.Review.State.{
  Result, ok, err, other_reviewer, already_resolved, stale_comment, nothing_selected,
  too_many_comments, run_missing, Review, put_comment, append, get,
}
use please_hire_me.Review.Comments.{is_anchor_intact, mark_stale}

abbrev pub max_comments_per_run : ℕ
max_comments_per_run = 10

abbrev pub default_max_agent_rounds : ℕ
default_max_agent_rounds = 3

pub record PlannedRun : Type 0 where
  pub doc_id : Text
  pub agent_id : Text
  pub comments : List ReviewComment

abbrev pub run_key : ReviewComment → Text
run_key c = c.doc_id ++ codes "::" ++ c.responsible_agent_id

-- The group that is there, or a new one, with the comment at its end.
abbrev pub grown : ReviewComment → Option PlannedRun → PlannedRun
grown c none = record { doc_id = c.doc_id; agent_id = c.responsible_agent_id; comments = c ∷ [] }
grown c (some g) = record g { comments = g.comments ++ c ∷ [] }

unfoldable pub add_to_group : ReviewComment → Assoc PlannedRun → Assoc PlannedRun
add_to_group c groups = insert (run_key c) (grown c (lookup (run_key c) groups)) groups

abbrev pub is_resolved : CommentStatus → Bool
is_resolved resolved = true
is_resolved _ = false

-- Whose comment it is to dispatch: its author's, or where an Agent raised it also that of the
-- owner of the Agent that is asked.
unfoldable pub may_dispatch : Text → (Text → Bool) → ReviewComment → Bool
may_dispatch human_id owns_agent c =
    text_eq c.created_by_human_id human_id
    || (is_some c.created_by_agent_id && owns_agent c.responsible_agent_id)

abbrev pub is_too_large : PlannedRun → Bool
is_too_large g = ltb max_comments_per_run (length g.comments)

-- The last loop of `planRuns`.
abbrev pub check_sizes : Review × Result (Assoc PlannedRun) → Review × Result (List PlannedRun)
check_sizes (s, err e) = (s, err e)
check_sizes (s, ok groups) =
    if any is_too_large (values groups) then (s, err too_many_comments) else (s, ok (values groups))

module _ (uuid : ℕ → Text) (hash : Text → Text) (docs : Store) (now : ℕ) (human_id : Text) where
  unfoldable pub group_comments :
      (Text → Bool) → List Text → Assoc PlannedRun → Review → Review × Result (Assoc PlannedRun)
  unfolding get mark_stale add_to_group may_dispatch
  group_comments owns_agent [] groups s = (s, ok groups)
  group_comments owns_agent (id ∷ ids) groups s = elim (get id s) [
    | err e ↦ (s, err e)
    | ok c ↦
        if not (may_dispatch human_id owns_agent c)
        then (s, err other_reviewer)
        else if is_resolved c.status
        then (s, err already_resolved)
        else if not (is_anchor_intact hash docs c)
        then ((mark_stale uuid now c s).0, err (stale_comment c.id))
        else group_comments owns_agent ids (add_to_group c groups) s
  ]

  unfoldable pub plan_runs : (Text → Bool) → List Text → Review → Review × Result (List PlannedRun)
  plan_runs owns_agent ids s =
      if length ids == 0
      then (s, err nothing_selected)
      else check_sizes (group_comments owns_agent ids [] s)

-- The loop that marks the comments of a new run.
unfoldable pub begin_comments : Text → ℕ → List ReviewComment → Review → Review
begin_comments run_id at [] s = s
begin_comments run_id at (c ∷ cs) s = elim (lookup c.id s.comments) [
  | none ↦ begin_comments run_id at cs s
  | some stored ↦ begin_comments run_id at cs (
      put_comment c.id
        (record stored {
          status = in_progress;
          last_reiteration_run_id = some run_id;
          updated_at = at;
        })
        s)
]

unfoldable pub open_run :
    (ℕ → Text) → ℕ → Text → Text → Text → List ReviewComment → ℕ → Review → Review × ReiterationRun
unfolding begin_comments append
open_run uuid now doc_id agent_id human_id comments base_version s =
    let run : ReiterationRun = record {
      id = uuid s.drawn;
      doc_id = doc_id;
      agent_id = agent_id;
      human_id = human_id;
      comment_ids = map (λ (c : ReviewComment). c.id) comments;
      base_version = base_version;
      status = queued;
      resulting_version = none;
      error = none;
      created_at = now;
      completed_at = none;
    } in
    (
      append uuid now doc_id human human_id reiteration_started (sent (length comments) agent_id) (
          begin_comments run.id now comments
            (record s { runs = insert run.id run s.runs; drawn = s.drawn + 1 })),
      run,
    )

-- `outcome === "conflict" || outcome === "failed"`.
abbrev pub is_refused : CommentStatus → Bool
is_refused CommentStatus.conflict = true
is_refused CommentStatus.failed = true
is_refused _ = false

unfoldable pub escalate : ReviewComment → CommentStatus → ℕ → CommentStatus
escalate c outcome max_rounds = elim (truthy c.created_by_agent_id) [
  | none ↦ outcome
  | some author ↦
      if is_refused outcome
      then blocked
      else if leb max_rounds c.rounds && not (is_resolved outcome)
      then blocked
      else outcome
]

-- What the outcome of a run makes of its comments.
unfoldable pub comment_status : ReiterationStatus → CommentStatus
comment_status ReiterationStatus.written = addressed
comment_status ReiterationStatus.merged = addressed
comment_status ReiterationStatus.conflict = CommentStatus.conflict
comment_status ReiterationStatus.no_change = pending
comment_status _ = CommentStatus.failed

abbrev pub close_comment : ℕ → CommentStatus → ℕ → ReviewComment → ReviewComment
close_comment max_rounds outcome at c =
    let c' = record c { rounds = c.rounds + 1 } in
    record c' { status = escalate c' outcome max_rounds; updated_at = at }

unfoldable pub close_comments : ℕ → CommentStatus → ℕ → List Text → Review → Review
unfolding escalate
close_comments max_rounds outcome at [] s = s
close_comments max_rounds outcome at (id ∷ ids) s = elim (lookup id s.comments) [
  | none ↦ close_comments max_rounds outcome at ids s
  | some c ↦
      close_comments max_rounds outcome at ids
        (put_comment id (close_comment max_rounds outcome at c) s)
]

abbrev pub is_landed : ReiterationStatus → Bool
is_landed ReiterationStatus.written = true
is_landed ReiterationStatus.merged = true
is_landed _ = false

-- `resultingVersion ? … : ""`: version 0 is not named.
abbrev pub named_version : Option ℕ → Option ℕ
named_version none = none
named_version (some v) = if v == 0 then none else some v

unfoldable pub close_run :
    (ℕ → Text)
    → ℕ
    → Option ℕ
    → Text
    → ReiterationStatus
    → Option ℕ
    → Option Text
    → Review
    → Review × Result ReiterationRun
unfolding close_comments comment_status append
close_run uuid now max_agent_rounds run_id status resulting_version error s =
    elim (lookup run_id s.runs) [
      | none ↦ (s, err run_missing)
      | some run ↦
          let run' = record run {
            status = status;
            resulting_version = resulting_version;
            error = Option.map (take 300) (truthy error);
            completed_at = some now;
          } in
          let s' =
            close_comments (or_else max_agent_rounds default_max_agent_rounds)
              (comment_status status) now run.comment_ids
              (record s { runs = insert run.id run' s.runs }) in
          (
            append uuid now run.doc_id agent run.agent_id
                (if is_landed status then reiteration_completed else reiteration_failed)
                (reiterated status (named_version resulting_version)) s',
            ok run',
          )
    ]
