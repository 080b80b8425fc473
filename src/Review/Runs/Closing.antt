-- ===== src/Review/Runs/Closing.antt =====
-- What the end of a run makes of every comment.
use please_hire_me.Prelude.{
  ℕ, zero, suc, ◌+◌, ◌≡◌, ◌≤◌, refl, sym, ap, subst, ◌∙◌, ◌⊎◌, ◌≢◌, inl, inr, true, not, Option,
  none, some, List, [], ◌∷◌, arith, leb, Bool-cases, Option-cases, truthy, or_else, if◌then◌else◌,
  Text, text_eq, text_eq_iff, lookup, insert, lookup-insert,
}
use please_hire_me.Review.Types.{
  ReviewComment, CommentStatus, pending, in_progress, addressed, resolved, stale, blocked, conflict,
  failed, ReiterationStatus, ReiterationRun,
}
use please_hire_me.Review.State.{Review, put_comment, append}
use please_hire_me.Review.Runs.{
  close_comment, close_comments, close_run, escalate, comment_status, is_refused, is_resolved,
  default_max_agent_rounds,
}

abbrev pub occurrences : Text → List Text → ℕ
occurrences id [] = 0
occurrences id (x ∷ xs) = if text_eq x id then suc (occurrences id xs) else occurrences id xs

-- A comment that a run names `n` times is closed `n` times.
abbrev pub close_times : ℕ → CommentStatus → ℕ → ℕ → ReviewComment → ReviewComment
close_times max o at zero c = c
close_times max o at (suc n) c = close_times max o at n (close_comment max o at c)

abbrev pub close_times? : ℕ → CommentStatus → ℕ → ℕ → Option ReviewComment → Option ReviewComment
close_times? max o at n none = none
close_times? max o at n (some c) = some (close_times max o at n c)

pub lookup-close_comments :
    (max : ℕ) (o : CommentStatus) (at : ℕ) (ids : List Text) (s : Review) (j : Text)
    → lookup j (close_comments max o at ids s).comments
      ≡ close_times? max o at (occurrences j ids) (lookup j s.comments)
unfolding close_comments
lookup-close_comments max o at [] s j = elim (Option-cases (lookup j s.comments)) [
  | inl e ↦ rw e refl
  | inr (c, e) ↦ rw e refl
]
lookup-close_comments max o at (id ∷ ids) s j = elim (Option-cases (lookup id s.comments)) [
  | inl e ↦ elim (Bool-cases (text_eq id j)) [
    | inl same ↦
        let gone : lookup j s.comments ≡ none =
          subst (λ i. lookup i s.comments ≡ none) ((text_eq_iff id j).0 same) e in
        rw (e, close_comments) (lookup-close_comments max o at ids s j ∙ rw (same, gone) refl)
    | inr other ↦ rw (e, close_comments) (rw other (lookup-close_comments max o at ids s j))
  ]
  | inr (c, e) ↦
      let d = close_comment max o at c in
      let next = put_comment id d s in
      let ih = lookup-close_comments max o at ids next j in
      elim (Bool-cases (text_eq id j)) [
        | inl same ↦
            let here : lookup j s.comments ≡ some c =
              subst (λ i. lookup i s.comments ≡ some c) ((text_eq_iff id j).0 same) e in
            let now : lookup j (insert id d s.comments) ≡ some d =
              lookup-insert id j d s.comments ∙ rw same refl in
            rw (e, close_comments) (rw same (ih ∙ rw now (rw here refl)))
        | inr other ↦
            let now : lookup j (insert id d s.comments) ≡ lookup j s.comments =
              lookup-insert id j d s.comments ∙ rw other refl in
            rw (e, close_comments)
              (rw other (ih ∙ ap (close_times? max o at (occurrences j ids)) now))
      ]
]

-- Whether a comment of an Agent has to go to a human: the run was refused, or no round is left.
abbrev pub NeedsHuman : ℕ → CommentStatus → ℕ → Type 0
NeedsHuman max o rounds = (o ≡ conflict) ⊎ (o ≡ failed) ⊎ (max ≤ rounds)

-- How a comment comes out of a run that ends in `o` and names it `n` times.
pub record IsClosed (max : ℕ) (o : CommentStatus) (n : ℕ) (before after : ReviewComment)
    : Type 0 where
  pub spent : after.rounds ≡ before.rounds + n
  pub author : after.created_by_agent_id ≡ before.created_by_agent_id
  pub human : truthy before.created_by_agent_id ≡ none → after.status ≡ o
  pub blocked_for_human :
      truthy before.created_by_agent_id ≢ none
      → NeedsHuman max o after.rounds
      → after.status ≡ blocked
  pub settled_by_agent :
      truthy before.created_by_agent_id ≢ none
      → ¬ (NeedsHuman max o after.rounds)
      → after.status ≡ o

escalate-human :
    (c : ReviewComment) (o : CommentStatus) (max : ℕ)
    → truthy c.created_by_agent_id ≡ none
    → escalate c o max ≡ o
unfolding escalate
escalate-human c o max e = rw (e, escalate) refl

not-is_resolved : (o : CommentStatus) → o ≢ resolved → not (is_resolved o) ≡ true
not-is_resolved pending h = refl
not-is_resolved in_progress h = refl
not-is_resolved addressed h = refl
not-is_resolved resolved h = absurd (h refl)
not-is_resolved stale h = refl
not-is_resolved conflict h = refl
not-is_resolved failed h = refl
not-is_resolved blocked h = refl

escalate-blocked :
    (c : ReviewComment) (o : CommentStatus) (max : ℕ) (a : Text)
    → truthy c.created_by_agent_id ≡ some a
    → o ≢ resolved
    → NeedsHuman max o c.rounds
    → escalate c o max ≡ blocked
unfolding escalate
escalate-blocked c o max a e n (inl f) = rw (e, f, escalate) refl
escalate-blocked c o max a e n (inr (inl f)) = rw (e, f, escalate) refl
escalate-blocked c o max a e n (inr (inr spent)) = elim (Bool-cases (is_refused o)) [
  | inl refused ↦ rw (e, escalate) (rw refused refl)
  | inr kept ↦
      let out : leb max c.rounds ≡ true = ground arith in
      rw (e, escalate) (rw (kept, out, not-is_resolved o n) refl)
]

is_refused-cases : (o : CommentStatus) → is_refused o ≡ true → (o ≡ conflict) ⊎ (o ≡ failed)
is_refused-cases conflict e = inl refl
is_refused-cases failed e = inr refl
is_refused-cases pending e = cc
is_refused-cases in_progress e = cc
is_refused-cases addressed e = cc
is_refused-cases resolved e = cc
is_refused-cases stale e = cc
is_refused-cases blocked e = cc

escalate-kept :
    (c : ReviewComment) (o : CommentStatus) (max : ℕ) (a : Text)
    → truthy c.created_by_agent_id ≡ some a
    → ¬ (NeedsHuman max o c.rounds)
    → escalate c o max ≡ o
unfolding escalate
escalate-kept c o max a e n = elim (Bool-cases (is_refused o)) [
  | inl refused ↦ elim (is_refused-cases o refused) [
    | inl f ↦ absurd (n (inl f))
    | inr f ↦ absurd (n (inr (inl f)))
  ]
  | inr kept ↦ elim (Bool-cases (leb max c.rounds)) [
    | inl spent ↦ absurd (n (inr (inr (ground arith))))
    | inr left ↦ rw (e, escalate) (rw (kept, left) refl)
  ]
]

close_comment-IsClosed :
    (max : ℕ) (o : CommentStatus) (at : ℕ) (c : ReviewComment)
    → o ≢ resolved
    → IsClosed max o 1 c (close_comment max o at c)
close_comment-IsClosed max o at c n =
    let c' = record c { rounds = c.rounds + 1 } in
    record {
      spent = refl;
      author = refl;
      human = λ e. escalate-human c' o max e;
      blocked_for_human = λ some_agent h. elim (Option-cases (truthy c.created_by_agent_id)) [
        | inl e ↦ absurd (some_agent e)
        | inr (a, e) ↦ escalate-blocked c' o max a e n h
      ];
      settled_by_agent = λ some_agent h. elim (Option-cases (truthy c.created_by_agent_id)) [
        | inl e ↦ absurd (some_agent e)
        | inr (a, e) ↦ escalate-kept c' o max a e h
      ];
    }

close_times-IsClosed :
    (max : ℕ) (o : CommentStatus) (at n : ℕ) (c : ReviewComment)
    → o ≢ resolved
    → IsClosed max o (suc n) c (close_times max o at (suc n) c)
close_times-IsClosed max o at zero c h = close_comment-IsClosed max o at c h
close_times-IsClosed max o at (suc n) c h =
    let rest = close_times-IsClosed max o at n (close_comment max o at c) h in
    record {
      spent = omega (arith, rest.spent);
      author = rest.author;
      human = rest.human;
      blocked_for_human = rest.blocked_for_human;
      settled_by_agent = rest.settled_by_agent;
    }

ℕ-cases : (n : ℕ) → (n ≡ 0) ⊎ ((m : ℕ) × (n ≡ suc m))
ℕ-cases zero = inl refl
ℕ-cases (suc m) = inr (m, refl)

comment_status-ne-resolved : (status : ReiterationStatus) → comment_status status ≢ resolved
unfolding comment_status
comment_status-ne-resolved ReiterationStatus.written e = cc
comment_status-ne-resolved ReiterationStatus.merged e = cc
comment_status-ne-resolved ReiterationStatus.conflict e = cc
comment_status-ne-resolved ReiterationStatus.no_change e = cc
comment_status-ne-resolved _ e = cc

abbrev pub rounds_allowed : Option ℕ → ℕ
rounds_allowed max = or_else max default_max_agent_rounds

module _ (uuid : ℕ → Text) (now : ℕ) (max : Option ℕ) (id : Text) (status : ReiterationStatus)
    (version : Option ℕ) (error : Option Text) (s : Review) (run : ReiterationRun)
    (known : lookup id s.runs ≡ some run) where
  pub lookup-close_run :
      (j : Text)
      → lookup j (close_run uuid now max id status version error s).0.comments
        ≡ close_times?
            (rounds_allowed max)
            (comment_status status)
            now
            (occurrences j run.comment_ids)
            (lookup j s.comments)
  unfolding close_run append
  lookup-close_run j =
      rw (known, close_run)
        (lookup-close_comments (rounds_allowed max) (comment_status status) now run.comment_ids _ j)

  -- When a run closes, every comment that it names has spent a round for each time that it is named.
  -- A human's comment takes the outcome of the run. One that an Agent raised is blocked, for a human
  -- to decide, exactly where the run ended in a conflict or failed or no round is left, and takes
  -- the outcome else. The author of a comment stays, and no other comment changes.
  pub close_run-IsClosed :
      (j : Text)
      → ((occurrences j run.comment_ids ≡ 0)
          × (lookup j (close_run uuid now max id status version error s).0.comments
              ≡ lookup j s.comments))
        ⊎ (lookup j s.comments ≡ none)
        ⊎ ((before : ReviewComment) × (after : ReviewComment) × (lookup j s.comments ≡ some before)
            × (lookup j (close_run uuid now max id status version error s).0.comments ≡ some after)
            × IsClosed
                (rounds_allowed max)
                (comment_status status)
                (occurrences j run.comment_ids)
                before
                after)
  close_run-IsClosed j = elim (Option-cases (lookup j s.comments)) [
    | inl e ↦ inr (inl e)
    | inr (c, e) ↦ elim (ℕ-cases (occurrences j run.comment_ids)) [
      | inl never ↦ inl (never, lookup-close_run j ∙ rw (e, never) refl)
      | inr (n, some_times) ↦ inr (
          inr (
            c,
            close_times (rounds_allowed max) (comment_status status) now (suc n) c,
            e,
            lookup-close_run j ∙ rw (e, some_times) refl,
            subst
                (λ k.
                  IsClosed (rounds_allowed max) (comment_status status) k c
                    (close_times (rounds_allowed max) (comment_status status) now (suc n) c))
                (sym some_times)
                (close_times-IsClosed (rounds_allowed max) (comment_status status) now n c
                  (comment_status-ne-resolved status)),
          ))
    ]
  ]
