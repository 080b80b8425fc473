-- ===== src/Review/Histories.antt =====
-- The histories of a ReviewService: every sequence of its operations. `ids` are the comments that a
-- human resolved on the way.
use please_hire_me.Prelude.{
  ℕ, ◌≡◌, refl, inl, inr, Bool, Option, List, [], ◌∷◌, Text, Assoc, lookup-Entries,
}
use please_hire_me.Concord.Store.State.{Store}
use please_hire_me.Review.Types.{ReviewComment, ReiterationStatus}
use please_hire_me.Review.State.{Review, empty_review, ok, get, get-eq-ok}
use please_hire_me.Review.Comments.{CreateCommentInput, create_comment, agent_resolve, resolve}
use please_hire_me.Review.Runs.{plan_runs, open_run, close_run}
use please_hire_me.Review.Fairness.{IsFair, AreFair, create_comment-AreFair, resolve-AreFair}
use please_hire_me.Review.Fairness.Agreement.{agent_resolve-AreFair}
use please_hire_me.Review.Fairness.Runs.{plan_runs-AreFair, open_run-AreFair, close_run-AreFair}

pub data Step (uuid : ℕ → Text) (hash : Text → Text) : Review → Review → Type 0 where
  create :
      (now : ℕ) (docs : Store) (input : CreateCommentInput) (s : Review)
      → Step uuid hash s (create_comment uuid hash now docs input s).0
  agree :
      (now : ℕ) (id agent : Text) (s : Review)
      → Step uuid hash s (agent_resolve uuid now id agent s).0
  plan :
      (docs : Store) (now : ℕ) (human : Text) (owns_agent : Text → Bool) (ids : List Text)
      (s : Review)
      → Step uuid hash s (plan_runs uuid hash docs now human owns_agent ids s).0
  start :
      (now : ℕ) (doc agent human : Text) (comments : List ReviewComment) (base : ℕ) (s : Review)
      → Step uuid hash s (open_run uuid now doc agent human comments base s).0
  finish :
      (now : ℕ) (max_rounds : Option ℕ) (id : Text) (status : ReiterationStatus)
      (version : Option ℕ) (error : Option Text) (s : Review)
      → Step uuid hash s (close_run uuid now max_rounds id status version error s).0

pub data Reached (uuid : ℕ → Text) (hash : Text → Text) : List Text → Review → Type 0 where
  begin : Reached uuid hash [] empty_review
  next :
      {ids : List Text} {s t : Review}
      → Reached uuid hash ids s
      → Step uuid hash s t
      → Reached uuid hash ids t
  by_human :
      {ids : List Text} {s : Review} (now : ℕ) (id human : Text)
      → Reached uuid hash ids s
      → Reached uuid hash (id ∷ ids) (resolve uuid now id human s).0

-- More resolutions by a human keep what is fair.
IsFair-more :
    (id : Text) (ids : List Text) (m : Assoc ReviewComment) → AreFair ids m → AreFair (id ∷ ids) m
IsFair-more id ids [] _ = _
IsFair-more id ids ((k, c) ∷ m) (f, h) = (
  record {
    keyed = f.keyed;
    settled = elim f.settled [
      | inl n ↦ inl n
      | inr (inl b) ↦ inr (inl b)
      | inr (inr i) ↦ inr (inr (inr i))
    ];
    visible = f.visible;
    parties = f.parties;
  },
  IsFair-more id ids m h,
)

Step-AreFair :
    {uuid : ℕ → Text} {hash : Text → Text} {s t : Review} (ids : List Text)
    → Step uuid hash s t
    → AreFair ids s.comments
    → AreFair ids t.comments
Step-AreFair {uuid} {hash} ids (create now docs input s) h =
    create_comment-AreFair ids uuid hash now docs input s h
Step-AreFair {uuid} ids (agree now id agent s) h = agent_resolve-AreFair ids uuid now id agent s h
Step-AreFair {uuid} {hash} ids (plan docs now human owns_agent selected s) h =
    plan_runs-AreFair ids uuid hash docs now human owns_agent selected s h
Step-AreFair {uuid} ids (start now doc agent human comments base s) h =
    open_run-AreFair ids uuid now doc agent human comments base s h
Step-AreFair {uuid} ids (finish now max_rounds id status version error s) h =
    close_run-AreFair ids uuid now max_rounds id status version error s h

Reached-AreFair :
    {uuid : ℕ → Text} {hash : Text → Text} {ids : List Text} {s : Review}
    → Reached uuid hash ids s
    → AreFair ids s.comments
Reached-AreFair begin = _
Reached-AreFair {ids = ids} (next r st) = Step-AreFair ids st (Reached-AreFair r)
Reached-AreFair {uuid} {ids = ids} (by_human {ids = before} {s = s} now id human r) =
    resolve-AreFair ids uuid now id human s (IsFair-more id before s.comments (Reached-AreFair r))
      (inl refl)

-- After any sequence of operations of the service on an empty state: a comment that stands as
-- resolved was resolved by a human, or an Agent raised it and both that Agent and the one
-- responsible for its lines called it settled; only these two ever did. And a comment that an Agent
-- raised never stands as stale, conflict or failed, which the panel hides or shows as a fault.
pub get-IsFair :
    (uuid : ℕ → Text) (hash : Text → Text) (ids : List Text) (s : Review) (id : Text)
    (c : ReviewComment)
    → Reached uuid hash ids s
    → get id s ≡ ok c
    → IsFair ids id c
get-IsFair uuid hash ids s id c r e =
    lookup-Entries (IsFair ids) id c s.comments (Reached-AreFair r) (get-eq-ok id s c e)
