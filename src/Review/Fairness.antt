-- ===== src/Review/Fairness.antt =====
-- The invariant of the comments: who can settle one, and that none of an Agent's disappears. Each
-- operation of a ReviewService keeps it.
pub mod Runs
pub mod Agreement
use please_hire_me.Prelude.{
  ℕ, ◌+◌, ◌≡◌, refl, sym, ap, subst, ◌∙◌, ◌⊎◌, ◌≢◌, inl, inr, Bool, true, false, not, ◌&&◌, Option,
  none, some, List, [], ◌∷◌, ◌++◌, arith, any, Bool-cases, Option-cases, is_some, truthy,
  if◌then◌else◌, leb, Text, text_eq, text_eq_iff, Assoc, lookup, insert, In, In-append_left,
  In-append_right, All, All-append, Entries, lookup-Entries, insert-Entries,
}
use please_hire_me.Concord.Provenance.Responsible.{any-In}
use please_hire_me.Concord.Store.State.{Store}
use please_hire_me.Review.Types.{
  ReviewComment, CommentStatus, pending, in_progress, addressed, resolved, stale, blocked, conflict,
  failed, ReiterationStatus, ActorType, ReviewEventType, EventSummary,
}
use please_hire_me.Review.State.{Review, put_comment, Result, ok, err, Result-cases, append, get}
use please_hire_me.Review.Comments.{
  agreed_comment, has_both, agree, is_anchor_intact, tell_stale, CreateCommentInput, Placed, place,
  add_comment, create_comment, set_status, mark_stale, agent_resolve, resolve,
}
use please_hire_me.Review.Runs.Planning.{
  group_comments-missing, group_comments-found, plan_runs-check_sizes, tests_keep,
}
use please_hire_me.Review.Runs.{
  PlannedRun, check_sizes, may_dispatch, add_to_group, plan_runs, group_comments, begin_comments,
  open_run, escalate, comment_status, close_comments, close_run, is_resolved, is_refused,
}

-- What a reader of the panel still sees: neither held, nor refused.
abbrev pub IsVisible : CommentStatus → Type 0
IsVisible stale = ⊥
IsVisible conflict = ⊥
IsVisible failed = ⊥
IsVisible _ = Unit

-- The Agent that raised the comment and the Agent that answers for the lines both call it settled.
abbrev pub BothAgreed : ReviewComment → Type 0
BothAgreed c =
    (a : Text) × (truthy c.created_by_agent_id ≡ some a)
    × In a c.agent_resolved
    × In c.responsible_agent_id c.agent_resolved

pub record IsFair (ids : List Text) (k : Text) (c : ReviewComment) : Type 0 where
  pub keyed : k ≡ c.id
  pub settled : (c.status ≢ resolved) ⊎ BothAgreed c ⊎ In k ids
  pub visible : (truthy c.created_by_agent_id ≡ none) ⊎ IsVisible c.status
  pub parties :
      All
        (λ a. (truthy c.created_by_agent_id ≡ some a) ⊎ (a ≡ c.responsible_agent_id))
        c.agent_resolved

abbrev pub AreFair : List Text → Assoc ReviewComment → Type 0
AreFair ids m = Entries (IsFair ids) m

append-comments :
    (uuid : ℕ → Text) (now : ℕ) (doc : Text) (actor : ActorType) (by : Text)
    (type : ReviewEventType) (summary : EventSummary) (s : Review)
    → (append uuid now doc actor by type summary s).comments ≡ s.comments
unfolding append
append-comments uuid now doc actor by type summary s = refl

tell_stale-comments :
    (uuid : ℕ → Text) (now : ℕ) (status : CommentStatus) (c : ReviewComment) (s : Review)
    → (tell_stale uuid now status c s).comments ≡ s.comments
unfolding append
tell_stale-comments uuid now stale c s = refl
tell_stale-comments uuid now _ c s = refl

module _ (ids : List Text) where
  pub set_status-AreFair :
      (uuid : ℕ → Text) (now : ℕ) (id : Text) (status : CommentStatus) (s : Review)
      → AreFair ids s.comments
      → ((c : ReviewComment)
          → lookup id s.comments ≡ some c
          → IsFair ids id (record c { status = status; updated_at = now }))
      → AreFair ids (set_status uuid now id status s).0.comments
  unfolding set_status
  set_status-AreFair uuid now id status s h f = elim (Option-cases (lookup id s.comments)) [
    | inl e ↦ rw (e, set_status) h
    | inr (c, e) ↦
        rw (e, set_status)
          (subst (AreFair ids) (sym (tell_stale-comments uuid now status _ _))
            (insert-Entries (IsFair ids) id _ s.comments (f c e) h))
  ]

  created-IsFair :
      (c : ReviewComment) → c.status ≡ pending → c.agent_resolved ≡ [] → IsFair ids c.id c
  created-IsFair c e f = record {
    keyed = refl;
    settled = inl (λ g. cc);
    visible = inr (rw e _);
    parties = rw f _;
  }

  pub add_comment-AreFair :
      (uuid : ℕ → Text) (hash : Text → Text) (now : ℕ) (input : CreateCommentInput) (p : Placed)
      (s : Review)
      → AreFair ids s.comments
      → AreFair ids (add_comment uuid hash now input p s).0.comments
  unfolding add_comment append
  add_comment-AreFair uuid hash now input p s h =
      let c = (add_comment uuid hash now input p s).1 in
      insert-Entries (IsFair ids) c.id c s.comments (created-IsFair c refl refl) h

  pub create_comment-AreFair :
      (uuid : ℕ → Text) (hash : Text → Text) (now : ℕ) (docs : Store) (input : CreateCommentInput)
      (s : Review)
      → AreFair ids s.comments
      → AreFair ids (create_comment uuid hash now docs input s).0.comments
  unfolding create_comment
  create_comment-AreFair uuid hash now docs input s h = elim (Result-cases (place docs input)) [
    | inl (x, e) ↦ rw (e, create_comment) h
    | inr (p, e) ↦ rw (e, create_comment) (add_comment-AreFair uuid hash now input p s h)
  ]

  -- A new status keeps a comment fair where it does not settle it and an Agent's stays visible.
  restated-IsFair :
      (k : Text) (c : ReviewComment) (status : CommentStatus) (now : ℕ)
      → IsFair ids k c
      → status ≢ resolved
      → (truthy c.created_by_agent_id ≡ none) ⊎ IsVisible status
      → IsFair ids k (record c { status = status; updated_at = now })
  restated-IsFair k c status now h n v = record {
    keyed = h.keyed;
    settled = inl n;
    visible = v;
    parties = h.parties;
  }

  held_status :
      (o : Option Text)
      → let status = if is_some o then blocked else stale in
        (status ≢ resolved) × ((o ≡ none) ⊎ IsVisible status)
  held_status none = (λ e. cc, inl refl)
  held_status (some a) = (λ e. cc, inr _)

  pub mark_stale-AreFair :
      (uuid : ℕ → Text) (now : ℕ) (c : ReviewComment) (id : Text) (s : Review)
      → AreFair ids s.comments
      → lookup id s.comments ≡ some c
      → AreFair ids (mark_stale uuid now c s).0.comments
  unfolding mark_stale
  mark_stale-AreFair uuid now c id s h e =
      let fair = lookup-Entries (IsFair ids) id c s.comments h e in
      set_status-AreFair uuid now c.id _ s h λ d f.
        let same : c ≡ d = cc (ap (λ i. lookup i s.comments) fair.keyed) in
        let fair' = lookup-Entries (IsFair ids) c.id d s.comments h f in
        let (n, v) = held_status (truthy c.created_by_agent_id) in
        restated-IsFair c.id d _ now fair' n (
          subst
            (λ (x : ReviewComment).
              (truthy x.created_by_agent_id ≡ none)
              ⊎ IsVisible (if is_some (truthy c.created_by_agent_id) then blocked else stale))
            same v)

  pub resolve-AreFair :
      (uuid : ℕ → Text) (now : ℕ) (id human : Text) (s : Review)
      → AreFair ids s.comments
      → In id ids
      → AreFair ids (resolve uuid now id human s).0.comments
  unfolding resolve get
  resolve-AreFair uuid now id human s h m = elim (Option-cases (lookup id s.comments)) [
    | inl e ↦ rw (e, resolve) h
    | inr (c, e) ↦
        rw (e, resolve)
          (set_status-AreFair uuid now id resolved s h λ d f.
            let fair = lookup-Entries (IsFair ids) id d s.comments h f in
            record {
              keyed = fair.keyed;
              settled = inr (inr m);
              visible = inr _;
              parties = fair.parties;
            })
  ]
