-- ===== src/Review/Comments.antt =====
-- apps/server/src/review/service.ts: a comment's anchor and its route, and what happens to a
-- single comment. The hash and the random identifiers are arguments; a number that is not a
-- natural one is the line `none`.
pub mod Creation
use please_hire_me.Prelude.{
  ℕ, ◌+◌, ◌-◌, ◌==◌, Bool, true, false, not, ◌&&◌, Option, none, some, List, [], ◌∷◌, ◌++◌,
  if◌then◌else◌, ltb, leb, length, take, drop, any, or_else, or_option, is_some, truthy, Text,
  codes, text_eq, lookup, trim,
}
use please_hire_me.Concord.Merge.{split_lines, join_lines}
use please_hire_me.Concord.Provenance.{ResponsibleAgents, responsible_agents}
use please_hire_me.Concord.Store.State.{Store, SharedDoc, AuthzCheck}
use please_hire_me.Concord.Store.Views.{
  read_history, snapshot, provenance_of, history, history_denied, missing,
}
use please_hire_me.Review.Types.{
  CommentStatus, resolved, stale, blocked, pending, ReviewComment, ActorType, human, agent, system,
  comment_created, comment_resolved, comment_stale, routed, both_settled, agreed_settled,
  lines_changed, human_resolved,
}
use please_hire_me.Review.State.{
  ReviewError, empty_body, body_too_long, document_missing, outside_document, several_agents,
  no_agent, not_a_writer, own_lines, comment_missing, human_comment, not_a_party, denied, Result,
  ok, ◌>>=◌, check, require, err, Review, put_comment, append, get,
}

abbrev pub max_body : ℕ
max_body = 2_000

-- `splitLines(content).slice(start - 1, end).join("\n")`.
unfoldable pub slice_lines : Text → ℕ → ℕ → Text
unfolding split_lines join_lines
slice_lines content start end_line =
    join_lines (drop (start - 1) (take end_line (split_lines content)))

unfoldable pub route_for : AuthzCheck → Store → Text → Text → ℕ → ℕ → Result ResponsibleAgents
unfolding read_history responsible_agents provenance_of
route_for authorize docs doc_id agent_id start_line end_line =
    elim (read_history authorize doc_id agent_id docs) [
      | history_denied rule reason ↦ err (denied reason)
      | missing ↦ err document_missing
      | history doc ↦ ok (responsible_agents (provenance_of doc_id docs) start_line end_line)
    ]

pub record CreateCommentInput : Type 0 where
  pub doc_id : Text
  pub start_line : Option ℕ
  pub end_line : Option ℕ
  pub body : Text
  pub human_id : Text
  pub agent_id : Option Text
  pub rounds : Option ℕ
  pub target_agent_id : Option Text

-- The range, if it lies in a document of `count` lines.
unfoldable pub checked_range : Option ℕ → Option ℕ → ℕ → Option (ℕ × ℕ)
checked_range none e count = none
checked_range (some s) none count = none
checked_range (some s) (some e) count =
    if ltb s 1 then none else if ltb e s then none else if ltb count e then none else some (s, e)

-- An explicit choice, or the one Agent that wrote the lines.
unfoldable pub choose_agent : Option Text → ResponsibleAgents → Result Text
choose_agent target routing = elim (truthy (or_option target routing.recommended_agent_id)) [
  | none ↦ err (if routing.ambiguous then several_agents else no_agent)
  | some chosen ↦ elim (truthy target) [
    | none ↦ ok chosen
    | some t ↦
        if ltb 0 (length routing.candidate_agent_ids)
          && not (any (text_eq t) routing.candidate_agent_ids)
        then err not_a_writer
        else ok chosen
  ]
]

abbrev pub is_agent : Option Text → Text → Bool
is_agent none chosen = false
is_agent (some a) chosen = text_eq a chosen

-- What the tests of `createComment` establish: the trimmed body, the document, the range and the
-- Agent.
pub record Placed : Type 0 where
  pub body : Text
  pub doc : SharedDoc
  pub start_line : ℕ
  pub end_line : ℕ
  pub chosen : Text

abbrev pub routing_of : Store → Text → ℕ → ℕ → ResponsibleAgents
routing_of docs doc_id start_line end_line =
    responsible_agents (provenance_of doc_id docs) start_line end_line

unfoldable pub place : Store → CreateCommentInput → Result Placed
unfolding checked_range choose_agent snapshot split_lines
place docs input = do
  let body = trim input.body
  _ ← check (ltb 0 (length body)) empty_body
  _ ← check (leb (length body) max_body) body_too_long
  doc ← require (snapshot input.doc_id docs) document_missing
  let count = length (split_lines doc.content)
  range ← require (checked_range input.start_line input.end_line count) (outside_document count)
  chosen ← choose_agent input.target_agent_id (routing_of docs input.doc_id range.0 range.1)
  _ ← check (not (is_agent (truthy input.agent_id) chosen)) own_lines
  ok (record { body = body; doc = doc; start_line = range.0; end_line = range.1; chosen = chosen })

module _ (uuid : ℕ → Text) (hash : Text → Text) where
  -- The comment that passes every test: it is stored, and the event appended.
  unfoldable pub add_comment : ℕ → CreateCommentInput → Placed → Review → Review × ReviewComment
  unfolding slice_lines append
  add_comment now input placed s =
      let selected = slice_lines placed.doc.content placed.start_line placed.end_line in
      let comment : ReviewComment = record {
        id = uuid s.drawn;
        doc_id = input.doc_id;
        base_version = placed.doc.version;
        start_line = placed.start_line;
        end_line = placed.end_line;
        selected_text = selected;
        selected_text_hash = hash selected;
        body = placed.body;
        responsible_agent_id = placed.chosen;
        created_by_human_id = input.human_id;
        created_by_agent_id = input.agent_id;
        rounds = or_else input.rounds 0;
        agent_resolved = [];
        status = pending;
        last_reiteration_run_id = none;
        created_at = now;
        updated_at = now;
      } in
      let actor : ActorType = if is_some (truthy input.agent_id) then agent else human in
      (
        append uuid now input.doc_id actor (or_else input.agent_id input.human_id) comment_created
            (routed placed.start_line placed.end_line placed.chosen)
            (put_comment comment.id comment (record s { drawn = s.drawn + 1 })),
        comment,
      )

  unfoldable pub create_comment :
      ℕ → Store → CreateCommentInput → Review → Review × Result ReviewComment
  unfolding place add_comment
  create_comment now docs input s = elim (place docs input) [
    | err e ↦ (s, err e)
    | ok placed ↦ let (s', comment) = add_comment now input placed s in (s', ok comment)
  ]

-- Whether the anchored lines still hold the text that the comment was written about.
unfoldable pub is_anchor_intact : (Text → Text) → Store → ReviewComment → Bool
unfolding slice_lines snapshot
is_anchor_intact hash docs c = elim (snapshot c.doc_id docs) [
  | none ↦ false
  | some doc ↦
      if ltb (length (split_lines doc.content)) c.end_line
      then false
      else text_eq (hash (slice_lines doc.content c.start_line c.end_line)) c.selected_text_hash
]

-- The Agent is added to those that agree, once.
abbrev pub agreed_comment : ℕ → Text → ReviewComment → ReviewComment
agreed_comment now agent_id c = record c {
  agent_resolved =
      (if any (text_eq agent_id) c.agent_resolved
        then c.agent_resolved
        else c.agent_resolved ++ agent_id ∷ []);
  updated_at = now;
}

abbrev pub has_both : Text → ReviewComment → Bool
has_both author c =
    any (text_eq author) c.agent_resolved && any (text_eq c.responsible_agent_id) c.agent_resolved

module _ (uuid : ℕ → Text) where
  -- The event of a comment that is held.
  abbrev pub tell_stale : ℕ → CommentStatus → ReviewComment → Review → Review
  tell_stale now stale c s =
      append uuid now c.doc_id system (codes "CONCORD") comment_stale
        (lines_changed c.start_line c.end_line) s
  tell_stale now _ c s = s

  unfoldable pub set_status : ℕ → Text → CommentStatus → Review → Review × Result ReviewComment
  unfolding append
  set_status now id status s = elim (lookup id s.comments) [
    | none ↦ (s, err comment_missing)
    | some c ↦
        let c' = record c { status = status; updated_at = now } in
        (tell_stale now status c' (put_comment id c' s), ok c')
  ]

  unfoldable pub mark_stale : ℕ → ReviewComment → Review → Review × Result ReviewComment
  unfolding set_status
  mark_stale now c s =
      set_status now c.id (if is_some (truthy c.created_by_agent_id) then blocked else stale) s

  -- An Agent that is party to the comment calls it settled.
  unfoldable pub agree :
      ℕ → Text → Text → Text → ReviewComment → Review → Review × Result ReviewComment
  agree now id agent_id author c s =
      let c' = agreed_comment now agent_id c in
      let s' = put_comment id c' s in
      let both = has_both author c' in
      let (s'', result) = if both then set_status now id resolved s' else (s', ok c') in
      (
        append uuid now c.doc_id agent agent_id comment_resolved
            (if both
              then both_settled c.start_line c.end_line
              else agreed_settled c.start_line c.end_line)
            s'',
        result,
      )

  unfoldable pub agent_resolve : ℕ → Text → Text → Review → Review × Result ReviewComment
  unfolding get
  agent_resolve now id agent_id s = elim (get id s) [
    | err e ↦ (s, err e)
    | ok c ↦ elim (truthy c.created_by_agent_id) [
      | none ↦ (s, err human_comment)
      | some author ↦
          if not (text_eq agent_id author) && not (text_eq agent_id c.responsible_agent_id)
          then (s, err not_a_party)
          else agree now id agent_id author c s
    ]
  ]

  unfoldable pub resolve : ℕ → Text → Text → Review → Review × Result ReviewComment
  unfolding get set_status append
  resolve now id human_id s = elim (get id s) [
    | err e ↦ (s, err e)
    | ok c ↦
        let (s', result) = set_status now id resolved s in
        (
          append uuid now c.doc_id human human_id comment_resolved
              (human_resolved c.start_line c.end_line) s',
          result,
        )
  ]
