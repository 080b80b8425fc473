-- ===== src/Review/Examples.antt =====
-- Comments of a human and of an Agent on a document that two Agents wrote, and their runs.
use please_hire_me.Prelude.{
  ℕ, zero, suc, ◌+◌, ◌≡◌, ◌≢◌, ◌≤◌, ◌<◌, ◌⊎◌, ◌↔◌, refl, inl, inr, Bool, true, false, Option, none,
  some, List, [], ◌∷◌, arith, truthy, Text, codes, text_eq, lookup, In, Entries,
}
use mathlib.Core.Option
use please_hire_me.Review.Comments.Creation.{
  IsAnchored, Wrote, create_comment-IsAnchored, create_comment-Routed,
}
use please_hire_me.Review.Runs.Grouping.{HasNoColon}
use please_hire_me.Review.Runs.Planning.{IsPlan, plan_runs-IsPlan}
use please_hire_me.Review.Runs.Closing.{occurrences, IsClosed, close_run-IsClosed}
use please_hire_me.Review.Fairness.{IsFair}
use please_hire_me.Review.Histories.{Reached, begin, next, Step, get-IsFair}
use please_hire_me.Concord.Provenance.{LineProvenance}
use please_hire_me.Concord.Store.State.{Store, SharedDoc}
use please_hire_me.Review.Types.{
  ReviewComment, CommentStatus, ReiterationStatus, ReiterationRun, pending, blocked,
}
use please_hire_me.Review.State.{
  Review, empty_review, Result, ok, err, own_lines, several_agents, get,
}
use please_hire_me.Review.Comments.{CreateCommentInput, create_comment, agent_resolve}
use please_hire_me.Review.Runs.{PlannedRun, plan_runs, open_run, close_run}

abbrev pub draw : ℕ → Text
draw n = b'r' ∷ n ∷ []

-- A hash that tells all texts apart.
abbrev pub plain_hash : Text → Text
plain_hash t = t

abbrev line_of : Option Text → LineProvenance
line_of agent = record {
  line_id = codes "l";
  last_modified_by_agent_id = agent;
  last_modified_by_human_id = none;
  contribution_id = none;
  resulting_document_version = 1;
  updated_at = 5;
}

abbrev page : SharedDoc
page = record {
  id = codes "doc";
  version = 3;
  content = codes "a\nb\nc";
  updated_at = 10;
  updated_by = some (codes "ben");
  lease = none;
  history = [];
  conflicts = [];
  provenance = line_of (some (codes "ada")) ∷ line_of (some (codes "ben")) ∷ line_of none ∷ [];
  contributions = [];
}

abbrev pub pages : Store
pages = record {
  docs = (codes "doc", page) ∷ [];
  bases = [];
  presence = [];
  conflict_seq = 0;
  sections = [];
  events = [];
  drawn = 0;
}

abbrev asked : ℕ → ℕ → Option Text → CreateCommentInput
asked first last agent = record {
  doc_id = codes "doc";
  start_line = some first;
  end_line = some last;
  body = codes " why? ";
  human_id = codes "eve";
  agent_id = agent;
  rounds = none;
  target_agent_id = none;
}

create : CreateCommentInput → Review → Review × Result ReviewComment
create input s = create_comment draw plain_hash 20 pages input s

-- Ben asks Ada about her line.
after_ben : Review
unfolding create
after_ben = (create (asked 1 1 (some (codes "ben"))) empty_review).0

abbrev bens : ReviewComment
bens = record {
  id = draw 0;
  doc_id = codes "doc";
  base_version = 3;
  start_line = 1;
  end_line = 1;
  selected_text = codes "a";
  selected_text_hash = codes "a";
  body = codes "why?";
  responsible_agent_id = codes "ada";
  created_by_human_id = codes "eve";
  created_by_agent_id = some (codes "ben");
  rounds = 0;
  agent_resolved = [];
  status = CommentStatus.pending;
  last_reiteration_run_id = none;
  created_at = 20;
  updated_at = 20;
}

ben_asks :
    create_comment draw plain_hash 20 pages (asked 1 1 (some (codes "ben"))) empty_review
    ≡ (after_ben, ok bens)
unfolding create_comment please_hire_me.Prelude.trim lookup text_eq please_hire_me.Prelude.split_on
    please_hire_me.Concord.Provenance.responsible_agents
    please_hire_me.Concord.Store.Views.provenance_of after_ben please_hire_me.Prelude.join_with
ben_asks = refl

own_line : create (asked 2 2 (some (codes "ben"))) empty_review ≡ (empty_review, err own_lines)
unfolding create create_comment please_hire_me.Prelude.trim lookup text_eq
    please_hire_me.Prelude.split_on please_hire_me.Concord.Provenance.responsible_agents
    please_hire_me.Concord.Store.Views.provenance_of
own_line = refl

two_writers : create (asked 1 2 none) empty_review ≡ (empty_review, err several_agents)
unfolding create create_comment please_hire_me.Prelude.trim lookup text_eq
    please_hire_me.Prelude.split_on please_hire_me.Concord.Provenance.responsible_agents
    please_hire_me.Concord.Store.Views.provenance_of
two_writers = refl

create_comment-IsAnchored_example :
    IsAnchored plain_hash pages bens × (get bens.id after_ben ≡ ok bens) × (bens.status ≡ pending)
create_comment-IsAnchored_example =
    create_comment-IsAnchored draw plain_hash 20 pages (asked 1 1 (some (codes "ben"))) empty_review
      after_ben bens ben_asks

create_comment-Routed_example :
    ((none ≡ some (codes "ada")) ⊎ ((b : Text) → Wrote pages bens b ↔ (b ≡ codes "ada")))
    × (Wrote pages bens (codes "ada") ⊎ ((b : Text) → ¬ Wrote pages bens b))
    × (some (codes "ben") ≢ some (codes "ada"))
create_comment-Routed_example =
    create_comment-Routed draw plain_hash 20 pages (asked 1 1 (some (codes "ben"))) empty_review
      after_ben bens ben_asks

anyone : Text → Bool
anyone agent = true

abbrev bens_run : PlannedRun
bens_run = record { doc_id = codes "doc"; agent_id = codes "ada"; comments = bens ∷ [] }

planned :
    plan_runs draw plain_hash pages 30 (codes "kim") anyone (draw 0 ∷ []) after_ben
    ≡ (after_ben, ok (bens_run ∷ []))
unfolding plan_runs please_hire_me.Review.Runs.group_comments lookup after_ben create_comment
    please_hire_me.Prelude.trim text_eq please_hire_me.Prelude.split_on
    please_hire_me.Concord.Provenance.responsible_agents
    please_hire_me.Concord.Store.Views.provenance_of please_hire_me.Prelude.insert anyone
    please_hire_me.Review.Comments.is_anchor_intact please_hire_me.Prelude.join_with
planned = refl

bare_ids : Entries (λ k (c : ReviewComment). HasNoColon c.responsible_agent_id) after_ben.comments
unfolding after_ben create_comment please_hire_me.Prelude.trim lookup text_eq
    please_hire_me.Prelude.split_on please_hire_me.Concord.Provenance.responsible_agents
    please_hire_me.Concord.Store.Views.provenance_of please_hire_me.Prelude.insert
bare_ids = (λ m. omega arith, tt)

plan_runs-IsPlan_example :
    (after_ben ≡ after_ben)
    × IsPlan draw plain_hash pages 30 (codes "kim") anyone (draw 0 ∷ []) after_ben (bens_run ∷ [])
plan_runs-IsPlan_example =
    plan_runs-IsPlan draw plain_hash pages 30 (codes "kim") anyone (draw 0 ∷ []) after_ben after_ben
      (bens_run ∷ []) bare_ids planned

-- Ada's run on the comment.
running : Review × ReiterationRun
running = open_run draw 40 (codes "doc") (codes "ada") (codes "kim") (bens ∷ []) 3 after_ben

known_run : lookup running.1.id running.0.runs ≡ some running.1
unfolding lookup running open_run after_ben create_comment please_hire_me.Prelude.trim text_eq
    please_hire_me.Prelude.split_on please_hire_me.Concord.Provenance.responsible_agents
    please_hire_me.Concord.Store.Views.provenance_of please_hire_me.Prelude.insert
known_run = refl

-- It ends in a conflict, and Ben's comment is for a human to decide.
abbrev conflicted : Review
conflicted = (close_run draw 50 none running.1.id ReiterationStatus.conflict none none running.0).0

conflict_blocks :
    Option.map (λ (c : ReviewComment). c.status) (lookup (draw 0) conflicted.comments)
    ≡ some blocked
unfolding lookup close_run running open_run after_ben create_comment please_hire_me.Prelude.trim
    text_eq please_hire_me.Prelude.split_on please_hire_me.Concord.Provenance.responsible_agents
    please_hire_me.Concord.Store.Views.provenance_of please_hire_me.Prelude.insert
conflict_blocks = refl

close_run-IsClosed_example :
    ((occurrences (draw 0) running.1.comment_ids ≡ 0)
      × (lookup (draw 0) conflicted.comments ≡ lookup (draw 0) running.0.comments))
    ⊎ (lookup (draw 0) running.0.comments ≡ none)
    ⊎ ((before : ReviewComment) × (after : ReviewComment) × (lookup (draw 0) running.0.comments
          ≡ some before)
        × (lookup (draw 0) conflicted.comments ≡ some after)
        × IsClosed 3 CommentStatus.conflict
            (occurrences (draw 0) running.1.comment_ids)
            before
            after)
unfolding please_hire_me.Review.Runs.comment_status
close_run-IsClosed_example =
    close_run-IsClosed draw 50 none running.1.id ReiterationStatus.conflict none none running.0
      running.1 known_run (draw 0)

-- Both Agents call it settled.
abbrev ben_agrees : Review
ben_agrees = (agent_resolve draw 60 (draw 0) (codes "ben") after_ben).0

settled : Review
settled = (agent_resolve draw 70 (draw 0) (codes "ada") ben_agrees).0

abbrev bens_settled : ReviewComment
bens_settled = record bens {
  agent_resolved = codes "ben" ∷ codes "ada" ∷ [];
  status = CommentStatus.resolved;
  updated_at = 70;
}

settled_by_both : get (draw 0) settled ≡ ok bens_settled
unfolding get lookup settled agent_resolve after_ben create_comment please_hire_me.Prelude.trim
    text_eq please_hire_me.Prelude.split_on please_hire_me.Concord.Provenance.responsible_agents
    please_hire_me.Concord.Store.Views.provenance_of please_hire_me.Prelude.insert
    please_hire_me.Review.Comments.agree please_hire_me.Review.Comments.set_status
    please_hire_me.Prelude.join_with
settled_by_both = refl

settled-Reached : Reached draw plain_hash [] settled
unfolding settled after_ben create
settled-Reached =
    next
      (next (next begin (Step.create 20 pages (asked 1 1 (some (codes "ben"))) empty_review))
        (Step.agree 60 (draw 0) (codes "ben") _))
      (Step.agree 70 (draw 0) (codes "ada") _)

get-IsFair_example : IsFair [] (draw 0) bens_settled
get-IsFair_example =
    get-IsFair draw plain_hash [] settled (draw 0) bens_settled settled-Reached settled_by_both
