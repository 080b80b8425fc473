-- ===== src/Review/Authored.antt =====
-- apps/server/src/review/authored.ts and apply-authored.ts: what an Agent writes at the end of a turn
-- about comments, and how it is applied. The matches of the two patterns in the Agent's output are
-- arguments, a number that is matched being natural. The reason of a resolution is not kept.
mod Turns
mod Examples
use please_hire_me.Prelude.{
  ℕ, suc, ◌-◌, ◌<◌, Bool, true, false, Option, none, some, List, [], ◌∷◌, ◌++◌, if◌then◌else◌, ltb,
  leb, ◌==◌, ◌||◌, ◌&&◌, not, length, take, any, get_elem?, min, max, trim, Text, text_eq,
}
use please_hire_me.Concord.DocResource.{doc_resource}
use please_hire_me.Concord.Store.State.{Store}
use please_hire_me.Concord.Store.Messages.{collapse_spaces}
use please_hire_me.Review.Types.{ReviewComment}
use please_hire_me.Review.State.{Review, ReviewError, Result, err, ok}
use please_hire_me.Review.Comments.{CreateCommentInput, create_comment, agent_resolve}
use please_hire_me.Warrant.Types.{WarrantAction}
use please_hire_me.Warrant.Policy.{Decision, AuthzDecision}
use please_hire_me.Warrant.Tasks.{Subtask}
use please_hire_me.Warrant.Orchestrator.{Orchestrator, subtask_by_agent}
use please_hire_me.Warrant.Plane.{CheckInput, check, is_allowed}

abbrev pub max_agent_comment_body : ℕ
max_agent_comment_body = 500

abbrev pub max_agent_comments_per_turn : ℕ
max_agent_comments_per_turn = 3

pub record AuthoredComment : Type 0 where
  pub start_line : ℕ
  pub end_line : ℕ
  pub body : Text

-- A match of the pattern of comments: two numbers and a text.
abbrev pub Match : Type 0
Match = ℕ × (ℕ × Text)

unfoldable pub bound : Text → Text
unfolding collapse_spaces trim
bound text =
    let single = trim (collapse_spaces false text) in
    if ltb max_agent_comment_body (length single)
    then take (max_agent_comment_body - 1) single ++ 8230 ∷ []
    else single

abbrev pub same_comment : AuthoredComment → AuthoredComment → Bool
same_comment a b =
    a.start_line == b.start_line && (a.end_line == b.end_line && text_eq a.body b.body)

abbrev pub comment_of : Match → AuthoredComment
comment_of (first, (second, text)) = record {
  start_line = min first second;
  end_line = max first second;
  body = bound text;
}

abbrev pub is_usable : Match → Bool
is_usable (first, (second, text)) = not (length (bound text) == 0) && (leb 1 first && leb 1 second)

-- The loop over the matches: a comment is noted as seen even if no more are taken.
unfoldable pub authored_comments :
    List Match → List AuthoredComment → List AuthoredComment → List AuthoredComment
unfolding bound
authored_comments [] seen comments = comments
authored_comments (m ∷ ms) seen comments =
    let c = comment_of m in
    let later = authored_comments ms in
    if not (is_usable m)
    then later seen comments
    else if any (same_comment c) seen
    then later seen comments
    else if leb max_agent_comments_per_turn (length comments)
    then later (c ∷ seen) comments
    else later (c ∷ seen) (comments ++ c ∷ [])

-- The ordinals that are resolved, each once.
unfoldable pub authored_resolves : List ℕ → List ℕ → List ℕ
authored_resolves [] resolved = []
authored_resolves (n ∷ ns) resolved =
    let later = authored_resolves ns in
    if ltb n 1 || any (λ m. n == m) resolved then later resolved else n ∷ later (n ∷ resolved)

pub data Notice : Type 0 where
  no_such_comment : ℕ → Notice
  could_not_resolve : ℕ → ReviewError → Notice
  comment_refused : AuthzDecision → Notice
  dropped_comment : ℕ → ℕ → ReviewError → Notice

pub record ApplyAuthoredInput : Type 0 where
  pub doc_id : Text
  pub agent_id : Text
  pub resolves : List ℕ
  pub comments : List AuthoredComment
  pub answering : List ReviewComment

abbrev pub note_failure :
    {A : Type 0} → Result A → (ReviewError → Notice) → List Notice → List Notice
note_failure (ok a) note notices = notices
note_failure (err e) note notices = note e ∷ notices

module _ (uuid : ℕ → Text) (hash : Text → Text) (now : ℕ) where
  -- The first loop; the notices stand in the order of publication.
  unfoldable pub apply_resolves : ApplyAuthoredInput → List ℕ → Review → Review × List Notice
  unfolding agent_resolve
  apply_resolves input [] s = (s, [])
  apply_resolves input (n ∷ ns) s = elim (get_elem? input.answering (n - 1)) [
    | none ↦ let (s', notices) = apply_resolves input ns s in (s', no_such_comment n ∷ notices)
    | some target ↦
        let step = agent_resolve uuid now target.id input.agent_id s in
        let (s', notices) = apply_resolves input ns step.0 in
        (s', note_failure step.1 (could_not_resolve n) notices)
  ]

  -- The most rounds of the comments that are answered.
  unfoldable pub inherited_rounds : List ReviewComment → ℕ → ℕ
  inherited_rounds [] most = most
  inherited_rounds (c ∷ cs) most = inherited_rounds cs (max most c.rounds)

  abbrev pub comment_input : ApplyAuthoredInput → Subtask → AuthoredComment → CreateCommentInput
  comment_input input subtask c = record {
    doc_id = input.doc_id;
    start_line = some c.start_line;
    end_line = some c.end_line;
    body = c.body;
    human_id = subtask.owner_id;
    agent_id = some input.agent_id;
    rounds = some (inherited_rounds input.answering 0);
    target_agent_id = none;
  }

  unfoldable pub apply_comments :
      Store → ApplyAuthoredInput → Subtask → List AuthoredComment → Review → Review × List Notice
  unfolding create_comment inherited_rounds
  apply_comments docs input subtask [] s = (s, [])
  apply_comments docs input subtask (c ∷ cs) s =
      let step = create_comment uuid hash now docs (comment_input input subtask c) s in
      let (s', notices) = apply_comments docs input subtask cs step.0 in
      (s', note_failure step.1 (dropped_comment c.start_line c.end_line) notices)

  abbrev pub comment_check : ApplyAuthoredInput → CheckInput
  comment_check input = record {
    token = none;
    agent_id = some input.agent_id;
    action = WarrantAction.comment_write;
    resource = doc_resource input.doc_id;
    task_id = none;
  }

  unfoldable pub apply_authored :
      Store → Orchestrator → ApplyAuthoredInput → Review → Review × List Notice
  unfolding apply_resolves apply_comments check doc_resource subtask_by_agent
  apply_authored docs plane input s =
      let (s', notices) = apply_resolves input input.resolves s in
      if length input.comments == 0
      then (s', notices)
      else let decision = check now (comment_check input) plane in
        if not (is_allowed decision.decision)
        then (s', notices ++ comment_refused decision ∷ [])
        else elim (subtask_by_agent input.agent_id plane) [
          | none ↦ (s', notices)
          | some subtask ↦
              let (t, more) = apply_comments docs input subtask input.comments s' in
              (t, notices ++ more)
        ]
