-- ===== src/Review/Restart.antt =====
-- What a restart of the service brings back.
use please_hire_me.Prelude.{◌≡◌, Entries, Distinct}
use please_hire_me.Review.State.{Review, last_sequence}

-- Every comment and run stands once, under its identifier, and the counter is at the last event.
pub record IsStored (s : Review) : Type 0 where
  pub comments : Entries (λ k c. k ≡ c.id) s.comments
  pub comments_once : Distinct s.comments
  pub runs : Entries (λ k r. k ≡ r.id) s.runs
  pub runs_once : Distinct s.runs
  pub sequence : last_sequence s.events 0 ≡ s.sequence
