-- ===== src/Aegis/Latch.antt =====
-- apps/server/src/aegis/state/latch.ts: the global kill switch.
use please_hire_me.Prelude.{ℕ, Bool, true, false, Option, none, some, [], if◌then◌else◌, Text}

pub record KillLatch : Type 0 where
  pub armed : Bool
  pub reason : Text
  pub since : Option ℕ

unfoldable pub arm : ℕ → Text → KillLatch → KillLatch
arm now reason latch = record {
  armed = true;
  reason = reason;
  since = if latch.armed then latch.since else some now;
}

unfoldable pub disarm : KillLatch → KillLatch
disarm latch = record { armed = false; reason = []; since = none }
