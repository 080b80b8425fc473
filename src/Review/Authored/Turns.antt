-- ===== src/Review/Authored/Turns.antt =====
-- What the end of a turn of an Agent makes of comments.
use please_hire_me.Prelude.{
  ℕ, ◌≡◌, ◌≤◌, ◌<◌, inl, inr, true, false, some, List, [], ◌∷◌, ◌++◌, arith, length, length-append,
  length-take_le, take, ltb→lt, not_ltb→le, leb, ltb, any, Bool-cases, trim, All, All-append, Text,
}
use please_hire_me.Concord.Store.State.{Store}
use please_hire_me.Concord.Store.Messages.{collapse_spaces}
use please_hire_me.Review.State.{Review}
use please_hire_me.Warrant.Policy.{allow}
use please_hire_me.Warrant.Tasks.{Subtask}
use please_hire_me.Warrant.Orchestrator.{Orchestrator, subtask_by_agent}
use please_hire_me.Warrant.Plane.{check}
use please_hire_me.Review.Authored.{
  AuthoredComment, Match, ApplyAuthoredInput, bound, comment_of, is_usable, same_comment,
  authored_comments, apply_comments, comment_check,
}

-- The comments of the turn are created, on behalf of an Agent that may write comments on the document.
pub record AreCreated (uuid : ℕ → Text) (hash : Text → Text) (now : ℕ) (docs : Store)
    (plane : Orchestrator) (input : ApplyAuthoredInput) (s t : Review) : Type 0 where
  pub allowed : (check now (comment_check uuid hash now input) plane).decision ≡ allow
  pub subtask : Subtask
  pub found : subtask_by_agent input.agent_id plane ≡ some subtask
  pub result : t ≡ (apply_comments uuid hash now docs input subtask input.comments s).0

-- A comment that is taken.
pub record IsUsable (c : AuthoredComment) : Type 0 where
  pub ordered : (1 ≤ c.start_line) × (c.start_line ≤ c.end_line)
  pub nonempty : 0 < length c.body
  pub short : length c.body ≤ 500

bound-length : (text : Text) → length (bound text) ≤ 500
unfolding bound
bound-length text =
    let single : Text = trim (collapse_spaces false text) in
    elim (Bool-cases (ltb 500 (length single))) [
      | inl long ↦ rw long (
          omega (
            arith,
            length-append (take 499 single) (8230 ∷ []),
            length-take_le 499 single (omega (arith, ltb→lt 500 (length single) long)),
          ))
      | inr short ↦ rw short (not_ltb→le 500 (length single) short)
    ]

comment_of-IsUsable : (m : Match) → is_usable m ≡ true → IsUsable (comment_of m)
comment_of-IsUsable (first, (second, text)) e = record {
  ordered = (ground arith, ground arith);
  nonempty = ground arith;
  short = bound-length text;
}

authored_comments-kept :
    (ms : List Match) (seen comments : List AuthoredComment)
    → length comments ≤ 3
    → All IsUsable comments
    → (length (authored_comments ms seen comments) ≤ 3)
      × All IsUsable (authored_comments ms seen comments)
unfolding authored_comments
authored_comments-kept [] seen comments n h = (n, h)
authored_comments-kept (m ∷ ms) seen comments n h = elim (Bool-cases (is_usable m)) [
  | inl u ↦ elim (Bool-cases (any (same_comment (comment_of m)) seen)) [
    | inl a ↦ rw (u, a) (authored_comments-kept ms seen comments n h)
    | inr a ↦ elim (Bool-cases (leb 3 (length comments))) [
      | inl f ↦ rw (u, a, f) (authored_comments-kept ms (comment_of m ∷ seen) comments n h)
      | inr f ↦
          rw (u, a, f)
            (authored_comments-kept ms (comment_of m ∷ seen) (comments ++ comment_of m ∷ [])
              (ground (arith, length-append comments (comment_of m ∷ [])))
              (All-append IsUsable comments (comment_of m ∷ []) h (comment_of-IsUsable m u, tt)))
    ]
  ]
  | inr u ↦ rw u (authored_comments-kept ms seen comments n h)
]

-- Of any matches at most three comments are taken, each of a range of lines from 1 on in order and a
-- text of 1 to 500 code units.
pub authored_comments-bounded :
    (ms : List Match)
    → (length (authored_comments ms [] []) ≤ 3) × All IsUsable (authored_comments ms [] [])
authored_comments-bounded ms = authored_comments-kept ms [] [] (ground arith) tt
