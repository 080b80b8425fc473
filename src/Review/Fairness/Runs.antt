-- ===== src/Review/Fairness/Runs.antt =====
-- Planning, opening and closing a run keep the comments fair.
use please_hire_me.Prelude.{
  ℕ, ◌+◌, ◌≡◌, refl, sym, subst, ◌⊎◌, ◌≢◌, inl, inr, Bool, true, false, not, ◌&&◌, Option, none,
  some, List, [], ◌∷◌, arith, Option-cases, truthy, if◌then◌else◌, leb, Text, Assoc, lookup,
  lookup-Entries, insert-Entries,
}
use please_hire_me.Concord.Store.State.{Store}
use please_hire_me.Review.Types.{
  ReviewComment, CommentStatus, pending, in_progress, addressed, resolved, stale, blocked, conflict,
  failed, ReiterationStatus,
}
use please_hire_me.Review.State.{Review, put_comment, Result, ok, err, append}
use please_hire_me.Review.Comments.{is_anchor_intact}
use please_hire_me.Review.Runs.Planning.{
  group_comments-missing, group_comments-found, plan_runs-check_sizes, tests_keep,
}
use please_hire_me.Review.Runs.{
  PlannedRun, check_sizes, may_dispatch, add_to_group, plan_runs, group_comments, begin_comments,
  open_run, escalate, comment_status, close_comments, close_run, is_resolved, is_refused,
}
use please_hire_me.Review.Fairness.{IsVisible, IsFair, AreFair, mark_stale-AreFair}

module _ (ids : List Text) where
  -- `group_comments` marks at most one comment, that is stored.
  group_comments-AreFair :
      (uuid : ℕ → Text) (hash : Text → Text) (docs : Store) (now : ℕ) (human : Text)
      (owns_agent : Text → Bool) (selected : List Text) (groups : Assoc PlannedRun) (s : Review)
      → AreFair ids s.comments
      → AreFair ids
          (group_comments uuid hash docs now human owns_agent selected groups s).0.comments
  unfolding group_comments
  group_comments-AreFair uuid hash docs now human owns_agent [] groups s h = h
  group_comments-AreFair uuid hash docs now human owns_agent (id ∷ selected) groups s h =
      elim (Option-cases (lookup id s.comments)) [
        | inl e ↦
            subst (λ (r : Review × Result (Assoc PlannedRun)). AreFair ids r.0.comments)
              (sym
                (group_comments-missing uuid hash docs now human owns_agent id selected groups s e))
              h
        | inr (c, e) ↦
            subst (λ (r : Review × Result (Assoc PlannedRun)). AreFair ids r.0.comments)
              (sym
                (group_comments-found uuid hash docs now human owns_agent id selected groups s c e))
              (tests_keep (λ (r : Review × Result (Assoc PlannedRun)). AreFair ids r.0.comments)
                (may_dispatch human owns_agent c) (is_resolved c.status)
                (is_anchor_intact hash docs c) _ _ c.id _ h h
                (mark_stale-AreFair ids uuid now c id s h e)
                (group_comments-AreFair uuid hash docs now human owns_agent selected
                  (add_to_group c groups) s h))
      ]

  check_sizes-state : (p : Review × Result (Assoc PlannedRun)) → (check_sizes p).0 ≡ p.0
  check_sizes-state (s, err e) = refl
  check_sizes-state (s, ok groups) = ground arith

  pub plan_runs-AreFair :
      (uuid : ℕ → Text) (hash : Text → Text) (docs : Store) (now : ℕ) (human : Text)
      (owns_agent : Text → Bool) (selected : List Text) (s : Review)
      → AreFair ids s.comments
      → AreFair ids (plan_runs uuid hash docs now human owns_agent selected s).0.comments
  unfolding plan_runs
  plan_runs-AreFair uuid hash docs now human owns_agent [] s h = h
  plan_runs-AreFair uuid hash docs now human owns_agent (id ∷ selected) s h =
      let all = id ∷ selected in
      let grouped = group_comments uuid hash docs now human owns_agent all [] s in
      subst (λ (r : Review × Result (List PlannedRun)). AreFair ids r.0.comments)
        (sym (plan_runs-check_sizes uuid hash docs now human owns_agent id selected s))
        (subst (λ (r : Review). AreFair ids r.comments) (sym (check_sizes-state grouped))
          (group_comments-AreFair uuid hash docs now human owns_agent all [] s h))

  begin_comments-AreFair :
      (run : Text) (now : ℕ) (cs : List ReviewComment) (s : Review)
      → AreFair ids s.comments
      → AreFair ids (begin_comments run now cs s).comments
  unfolding begin_comments
  begin_comments-AreFair run now [] s h = h
  begin_comments-AreFair run now (c ∷ cs) s h = elim (Option-cases (lookup c.id s.comments)) [
    | inl e ↦ rw (e, begin_comments) (begin_comments-AreFair run now cs s h)
    | inr (d, e) ↦
        let fair = lookup-Entries (IsFair ids) c.id d s.comments h e in
        let d' = record d {
          status = in_progress;
          last_reiteration_run_id = some run;
          updated_at = now;
        } in
        let fair' : IsFair ids c.id d' = record {
          keyed = fair.keyed;
          settled = inl (λ g. cc);
          visible = inr _;
          parties = fair.parties;
        } in
        rw (e, begin_comments)
          (begin_comments-AreFair run now cs (put_comment c.id d' s)
            (insert-Entries (IsFair ids) c.id d' s.comments fair' h))
  ]

  pub open_run-AreFair :
      (uuid : ℕ → Text) (now : ℕ) (doc agent human : Text) (comments : List ReviewComment)
      (base : ℕ) (s : Review)
      → AreFair ids s.comments
      → AreFair ids (open_run uuid now doc agent human comments base s).0.comments
  unfolding open_run append
  open_run-AreFair uuid now doc agent human comments base s h =
      begin_comments-AreFair (uuid s.drawn) now comments _ h

  -- What a run can end in: no comment is settled by it, or held for changed lines.
  abbrev IsOutcome : CommentStatus → Type 0
  IsOutcome o = (o ≢ resolved) × (o ≢ stale)

  comment_status-IsOutcome : (status : ReiterationStatus) → IsOutcome (comment_status status)
  unfolding comment_status
  comment_status-IsOutcome ReiterationStatus.written = (λ e. cc, λ e. cc)
  comment_status-IsOutcome ReiterationStatus.merged = (λ e. cc, λ e. cc)
  comment_status-IsOutcome ReiterationStatus.conflict = (λ e. cc, λ e. cc)
  comment_status-IsOutcome ReiterationStatus.no_change = (λ e. cc, λ e. cc)
  comment_status-IsOutcome _ = (λ e. cc, λ e. cc)

  escalated : CommentStatus → Bool → CommentStatus
  escalated o spent =
      if is_refused o then blocked else if spent && not (is_resolved o) then blocked else o

  escalated-fair :
      (o : CommentStatus) (spent : Bool)
      → IsOutcome o
      → (escalated o spent ≢ resolved) × IsVisible (escalated o spent)
  unfolding escalated
  escalated-fair resolved spent h = absurd (h.0 refl)
  escalated-fair stale spent h = absurd (h.1 refl)
  escalated-fair pending true h = (λ e. cc, _)
  escalated-fair pending false h = (λ e. cc, _)
  escalated-fair in_progress true h = (λ e. cc, _)
  escalated-fair in_progress false h = (λ e. cc, _)
  escalated-fair addressed true h = (λ e. cc, _)
  escalated-fair addressed false h = (λ e. cc, _)
  escalated-fair conflict spent h = (λ e. cc, _)
  escalated-fair failed spent h = (λ e. cc, _)
  escalated-fair blocked true h = (λ e. cc, _)
  escalated-fair blocked false h = (λ e. cc, _)

  escalate-fair :
      (c : ReviewComment) (o : CommentStatus) (max : ℕ)
      → IsOutcome o
      → (escalate c o max ≢ resolved)
        × ((truthy c.created_by_agent_id ≡ none) ⊎ IsVisible (escalate c o max))
  unfolding escalate escalated
  escalate-fair c o max h = elim (Option-cases (truthy c.created_by_agent_id)) [
    | inl e ↦ rw (e, escalate) (h.0, inl refl)
    | inr (a, e) ↦ rw (e, escalate) let (n, v) = escalated-fair o (leb max c.rounds) h in (n, inr v)
  ]

  close_comments-AreFair :
      (max : ℕ) (o : CommentStatus) (now : ℕ) (run : List Text) (s : Review)
      → IsOutcome o
      → AreFair ids s.comments
      → AreFair ids (close_comments max o now run s).comments
  unfolding close_comments
  close_comments-AreFair max o now [] s g h = h
  close_comments-AreFair max o now (id ∷ run) s g h = elim (Option-cases (lookup id s.comments)) [
    | inl e ↦ rw (e, close_comments) (close_comments-AreFair max o now run s g h)
    | inr (c, e) ↦
        let fair = lookup-Entries (IsFair ids) id c s.comments h e in
        let c' = record c { rounds = c.rounds + 1 } in
        let d = record c' { status = escalate c' o max; updated_at = now } in
        let (n, v) = escalate-fair c' o max g in
        let fair' : IsFair ids id d = record {
          keyed = fair.keyed;
          settled = inl n;
          visible = v;
          parties = fair.parties;
        } in
        rw (e, close_comments)
          (close_comments-AreFair max o now run (put_comment id d s) g
            (insert-Entries (IsFair ids) id d s.comments fair' h))
  ]

  pub close_run-AreFair :
      (uuid : ℕ → Text) (now : ℕ) (max : Option ℕ) (id : Text) (status : ReiterationStatus)
      (version : Option ℕ) (error : Option Text) (s : Review)
      → AreFair ids s.comments
      → AreFair ids (close_run uuid now max id status version error s).0.comments
  unfolding close_run append
  close_run-AreFair uuid now max id status version error s h =
      elim (Option-cases (lookup id s.runs)) [
        | inl e ↦ rw (e, close_run) h
        | inr (run, e) ↦
            rw (e, close_run)
              (close_comments-AreFair _ (comment_status status) now run.comment_ids _
                (comment_status-IsOutcome status) h)
      ]
