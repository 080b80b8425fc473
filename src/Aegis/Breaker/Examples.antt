-- ===== src/Aegis/Breaker/Examples.antt =====
-- The default breaker after one violation.
use please_hire_me.Prelude.{
  ℕ, suc, ◌+◌, ◌≡◌, ◌≤◌, refl, Bool, true, false, Option, none, some, List, [], ◌∷◌, arith, length,
  keep_if, Text, codes,
}
use please_hire_me.Aegis.Breaker.{
  default_breaker, Entry, Entries, entry, admits, record_violation, within_window,
}
use please_hire_me.Aegis.Breaker.Admission.{record_violation-admits}

abbrev agent : Text
agent = codes "ada"

abbrev tripped : Entry
tripped = record {
  violations = 100 ∷ [];
  opened_at = some 100;
  cooldown_ms = 60_000;
  probe_in_flight = false;
}

abbrev entries : Entries
entries = (agent, tripped) ∷ []

tripped_at : (entry default_breaker agent entries).opened_at ≡ some 100
unfolding entry please_hire_me.Prelude.lookup please_hire_me.Prelude.text_eq
tripped_at = refl

probe_run : (admits default_breaker 60_101 agent entries).1 ≡ true
unfolding admits please_hire_me.Prelude.lookup please_hire_me.Prelude.text_eq
probe_run = refl

doubled :
    (entry default_breaker agent
      (record_violation default_breaker 60_200 agent entries).0).cooldown_ms
    ≡ 120_000
unfolding entry please_hire_me.Prelude.lookup record_violation please_hire_me.Prelude.insert
    please_hire_me.Prelude.text_eq
doubled = refl

still_shut :
    180_000
    ≤ 60_200
      + (entry default_breaker agent
          (record_violation default_breaker 60_200 agent entries).0).cooldown_ms
still_shut = omega (arith, doubled)

at_threshold :
    1
    ≤ length (
        keep_if
          (within_window default_breaker 60_200)
          (entry default_breaker agent entries).violations)
      + 1
at_threshold = omega arith

record_violation-admits_example :
    (admits default_breaker 180_000 agent
      (record_violation default_breaker 60_200 agent entries).0).1
    ≡ false
record_violation-admits_example =
    record_violation-admits default_breaker agent 60_200 180_000 entries at_threshold still_shut
