-- ===== src/Review/State.antt =====
-- apps/server/src/review/service.ts: the state of a ReviewService, its errors, and what every
-- operation uses. Random identifiers are drawn from `uuid`, and `now` is the clock.
use please_hire_me.Prelude.{
  arith, ◌⊎◌, inl, inr, ◌≡◌, refl, true, false, ℕ, ◌+◌, ◌-◌, ◌==◌, max, not, ◌&&◌, Bool, Option,
  none, some, List, [], ◌∷◌, ◌++◌, map, length, drop, keep_if, or_else, if◌then◌else◌, Text,
  text_eq, Assoc, lookup, insert, values,
}
use mathlib.Core.List.{reverse}
use please_hire_me.Review.Types.{
  ReviewComment, ReiterationRun, ReviewEvent, ReviewEventType, ActorType, EventSummary,
}

-- The messages of `HttpError`, with the values that they name.
pub data ReviewError : Type 0 where
  empty_body body_too_long document_missing : ReviewError
  outside_document : ℕ → ReviewError
  several_agents no_agent not_a_writer own_lines : ReviewError
  comment_missing human_comment not_a_party other_reviewer already_resolved : ReviewError
  stale_comment : Text → ReviewError
  nothing_selected too_many_comments run_missing : ReviewError
  denied : Text → ReviewError
  unsupported_format : ReviewError

pub data Result (A : Type 0) : Type 0 where
  err : ReviewError → Result A
  ok : A → Result A

-- A chain of tests: the first that throws decides.
infixl 5 ◌>>=◌
abbrev pub ◌>>=◌ : {A B : Type 0} → Result A → (A → Result B) → Result B
◌>>=◌ tested rest = elim tested [ err thrown ↦ err thrown | ok value ↦ rest value ]

-- `if (!test) throw error`.
abbrev pub check : Bool → ReviewError → Result (Unit {0})
check passed error = if passed then ok tt else err error

-- `if (!value) throw error`.
abbrev pub require : {A : Type 0} → Option A → ReviewError → Result A
require found error = elim found [ none ↦ err error | some value ↦ ok value ]

pub Result-cases :
    {A : Type 0} (r : Result A) → ((x : ReviewError) × (r ≡ err x)) ⊎ ((a : A) × (r ≡ ok a))
Result-cases (err x) = inl (x, refl)
Result-cases (ok a) = inr (a, refl)

pub ok_inj : {A : Type 0} {a b : A} → ok a ≡ ok b → a ≡ b
ok_inj e = cc

-- What a chain that ends well says of its first test.
module _ {B : Type 0} {end : B} where
  pub value_of_chain :
      {A : Type 0} (tested : Result A) (rest : A → Result B)
      → (tested >>= rest) ≡ ok end
      → (value : A) × (tested ≡ ok value) × (rest value ≡ ok end)
  value_of_chain (err thrown) rest whole = cc
  value_of_chain (ok value) rest whole = (value, refl, whole)

  pub passed_in_chain :
      (passed : Bool) (error : ReviewError) (rest : Unit {0} → Result B)
      → (check passed error >>= rest) ≡ ok end
      → (passed ≡ true) × (rest tt ≡ ok end)
  passed_in_chain false error rest whole = cc
  passed_in_chain true error rest whole = (refl, whole)

pub required :
    {A : Type 0} {value : A} (found : Option A) (error : ReviewError)
    → require found error ≡ ok value
    → found ≡ some value
required none error e = cc
required (some found) error e = cc

-- `drawn` counts the random identifiers that are used up.
pub record Review : Type 0 where
  pub comments : Assoc ReviewComment
  pub runs : Assoc ReiterationRun
  pub events : List ReviewEvent
  pub sequence : ℕ
  pub drawn : ℕ

abbrev pub empty_review : Review
empty_review = record { comments = []; runs = []; events = []; sequence = 0; drawn = 0 }

abbrev pub put_comment : Text → ReviewComment → Review → Review
put_comment id c s = record s { comments = insert id c s.comments }

unfoldable pub append :
    (ℕ → Text) → ℕ → Text → ActorType → Text → ReviewEventType → EventSummary → Review → Review
append uuid now doc_id actor_type actor_id type summary s =
    let event : ReviewEvent = record {
      id = uuid s.drawn;
      sequence = s.sequence + 1;
      doc_id = doc_id;
      actor_type = actor_type;
      actor_id = actor_id;
      summary = summary;
      type = type;
      created_at = now;
    } in
    record s { events = s.events ++ event ∷ []; sequence = s.sequence + 1; drawn = s.drawn + 1 }

unfoldable pub get : Text → Review → Result ReviewComment
get id s = elim (lookup id s.comments) [ none ↦ err comment_missing | some c ↦ ok c ]

pub get-eq-ok :
    (id : Text) (s : Review) (c : ReviewComment) → get id s ≡ ok c → lookup id s.comments ≡ some c
unfolding get
get-eq-ok id s c e = ground arith

unfoldable pub list_comments : Text → Review → List ReviewComment
list_comments doc_id s = keep_if (λ c. text_eq c.doc_id doc_id) (values s.comments)

unfoldable pub list_all_comments : Review → List ReviewComment
list_all_comments s = values s.comments

unfoldable pub list_runs : Text → Review → List ReiterationRun
list_runs doc_id s = keep_if (λ r. text_eq r.doc_id doc_id) (values s.runs)

-- `slice(-limit)` of a list: its last `limit` entries, and all of them where the limit is 0.
abbrev pub slice_last {ℓ} : {A : Type ℓ} → ℕ → List A → List A
slice_last limit xs = if limit == 0 then xs else drop (length xs - limit) xs

-- Newest first.
unfoldable pub list_events : Text → ℕ → Review → List ReviewEvent
list_events doc_id limit s =
    reverse (slice_last limit (keep_if (λ e. text_eq e.doc_id doc_id) s.events))

-- A comment in the file: the three later fields are missing where version 1 wrote it.
pub record PersistedComment : Type 0 where
  pub comment : ReviewComment
  pub created_by_agent_id : Option (Option Text)
  pub rounds : Option ℕ
  pub agent_resolved : Option (List Text)

-- The file after `JSON.parse`; `runs` and `events` may be missing.
pub record PersistedReview : Type 0 where
  pub version : ℕ
  pub comments : List PersistedComment
  pub runs : Option (List ReiterationRun)
  pub events : Option (List ReviewEvent)

abbrev pub persisted : ReviewComment → PersistedComment
persisted c = record {
  comment = c;
  created_by_agent_id = some c.created_by_agent_id;
  rounds = some c.rounds;
  agent_resolved = some c.agent_resolved;
}

-- What `persist` writes.
unfoldable pub payload : Review → PersistedReview
payload s = record {
  version = 2;
  comments = map persisted (values s.comments);
  runs = some (values s.runs);
  events = some s.events;
}

-- Defaults first, so that a value in the file wins.
abbrev pub upgrade : PersistedComment → ReviewComment
upgrade p = record (p.comment) {
  created_by_agent_id = or_else p.created_by_agent_id none;
  rounds = or_else p.rounds 0;
  agent_resolved = or_else p.agent_resolved [];
}

unfoldable pub restore_comments : List PersistedComment → Assoc ReviewComment → Assoc ReviewComment
restore_comments [] m = m
restore_comments (p ∷ ps) m = restore_comments ps (insert (upgrade p).id (upgrade p) m)

unfoldable pub restore_runs : List ReiterationRun → Assoc ReiterationRun → Assoc ReiterationRun
restore_runs [] m = m
restore_runs (r ∷ rs) m = restore_runs rs (insert r.id r m)

-- `reduce((max, event) => Math.max(max, event.sequence), 0)`.
unfoldable pub last_sequence : List ReviewEvent → ℕ → ℕ
last_sequence [] m = m
last_sequence (e ∷ es) m = last_sequence es (max m e.sequence)

-- `initialize` on the text that was read, in a service that may hold something already.
unfoldable pub initialize : PersistedReview → Review → Review × Result (Unit {0})
unfolding restore_comments restore_runs last_sequence
initialize file s =
    if not (file.version == 1) && not (file.version == 2)
    then (s, err unsupported_format)
    else let events = s.events ++ or_else file.events [] in
      (
        record s {
          comments = restore_comments file.comments s.comments;
          runs = restore_runs (or_else file.runs []) s.runs;
          events = events;
          sequence = last_sequence events 0;
        },
        ok tt,
      )
