-- ===== src/Aegis/Breaker.antt =====
-- apps/server/src/aegis/state/breaker.ts: the circuit breaker of each Agent. A test on a difference
-- of two instants is written as one on a sum, so it also holds where the clock has gone back.
pub mod Admission
mod Examples
use please_hire_me.Prelude.{
  ℕ, suc, ◌+◌, ◌*◌, min, Bool, true, false, not, ◌&&◌, Option, none, some, is_some, List, [], ◌∷◌,
  ◌++◌, if◌then◌else◌, ltb, leb, length, keep_if, Text, Assoc, lookup, insert,
}

pub record BreakerOptions : Type 0 where
  pub threshold : ℕ
  pub window_ms : ℕ
  pub cooldown_ms : ℕ
  pub max_cooldown_ms : ℕ

abbrev pub default_breaker : BreakerOptions
default_breaker = record {
  threshold = 1;
  window_ms = 600_000;
  cooldown_ms = 60_000;
  max_cooldown_ms = 900_000;
}

pub data BreakerState : Type 0 where
  closed half_open opened : BreakerState

pub record Entry : Type 0 where
  pub violations : List ℕ
  pub opened_at : Option ℕ
  pub cooldown_ms : ℕ
  pub probe_in_flight : Bool

abbrev pub Entries : Type 0
Entries = Assoc Entry

-- `t - at <= this.options.windowMs`.
abbrev pub within_window : BreakerOptions → ℕ → ℕ → Bool
within_window options now at = leb now (at + options.window_ms)

module _ (options : BreakerOptions) where
  abbrev pub new_entry : Entry
  new_entry = record {
    violations = [];
    opened_at = none;
    cooldown_ms = options.cooldown_ms;
    probe_in_flight = false;
  }

  -- `entry`, which puts a new entry for an Agent that has none.
  unfoldable pub entry : Text → Entries → Entry
  entry agent entries = elim (lookup agent entries) [ none ↦ new_entry | some e ↦ e ]

  abbrev pub prune : ℕ → Entry → Entry
  prune now e = record e { violations = keep_if (within_window options now) e.violations }

  unfoldable pub state_of : ℕ → Entry → BreakerState
  state_of now e = elim e.opened_at [
    | none ↦ closed
    | some at ↦ if ltb (at + e.cooldown_ms) now then half_open else opened
  ]

  unfoldable pub state : ℕ → Text → Entries → Entries × BreakerState
  unfolding entry state_of
  state now agent entries =
      let e = prune now (entry agent entries) in (insert agent e entries, state_of now e)

  -- Whether the Agent may start a run now, by the state; a probe is marked in flight.
  unfoldable pub admit : BreakerState → Entry → Entry × Bool
  admit opened e = (e, false)
  admit half_open e =
      if e.probe_in_flight then (e, false) else (record e { probe_in_flight = true }, true)
  admit closed e = (e, true)

  unfoldable pub admits : ℕ → Text → Entries → Entries × Bool
  unfolding entry state_of admit
  admits now agent entries =
      let e = prune now (entry agent entries) in
      let (e', admitted) = admit (state_of now e) e in (insert agent e' entries, admitted)

  -- The entry after a violation now.
  unfoldable pub violated : ℕ → Entry → Entry
  violated now e =
      let violations = keep_if (within_window options now) e.violations ++ now ∷ [] in
      if leb options.threshold (length violations)
      then record {
        violations = violations;
        opened_at = some now;
        cooldown_ms =
            if is_some e.opened_at
            then min (e.cooldown_ms * 2) options.max_cooldown_ms
            else e.cooldown_ms;
        probe_in_flight = false;
      }
      else record e { violations = violations; probe_in_flight = false }

  unfoldable pub record_violation : ℕ → Text → Entries → Entries × BreakerState
  unfolding entry violated state_of
  record_violation now agent entries =
      let e = prune now (violated now (entry agent entries)) in
      (insert agent e entries, state_of now e)

  unfoldable pub record_success : Text → Entries → Entries × BreakerState
  record_success agent entries = (insert agent new_entry entries, closed)

  -- The loop over the Agents; each look at a state prunes the entry.
  unfoldable pub snapshot : ℕ → Entries → Entries × List (Text × BreakerState)
  unfolding state_of
  snapshot now [] = ([], [])
  snapshot now ((agent, e) ∷ rest) =
      let (rest', states) = snapshot now rest in
      ((agent, prune now e) ∷ rest', (agent, state_of now (prune now e)) ∷ states)
