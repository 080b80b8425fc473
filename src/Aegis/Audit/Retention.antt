-- ===== src/Aegis/Audit/Retention.antt =====
-- What pruning drops.
use please_hire_me.Prelude.{
  ℕ, suc, ◌+◌, ◌≤◌, ◌<◌, ◌≡◌, ◌⊎◌, inl, inr, refl, ap, true, List, [], ◌∷◌, ◌++◌, arith, length,
  Bool-cases, Text,
}
use please_hire_me.Aegis.Audit.{
  SafetyEvent, Settings, AppendInput, AuditLog, append, prune, prune_events, drop_oldest,
  is_prunable, sealed, unhashed, keep_event,
}
use please_hire_me.Aegis.Audit.Chain.{last_hash}

module _ (settings : Settings) (now : ℕ) where
  -- Each dropped event is too old, or has behind it, itself counted, more events than are retained.
  abbrev pub Forced : List SafetyEvent → List SafetyEvent → Type 0
  Forced [] rest = Unit
  Forced (e ∷ es) rest =
      ((e.ts + settings.retention.max_age_ms < now)
        ⊎ (settings.retention.max_events < length (e ∷ es ++ rest)))
      × Forced es rest

  abbrev pub OldestKept : List SafetyEvent → Type 0
  OldestKept [] = Unit
  OldestKept (e ∷ es) = now ≤ e.ts + settings.retention.max_age_ms

-- What is dropped of `es`, and what is left of the log.
pub record IsPruned (settings : Settings) (now : ℕ) (es : List SafetyEvent) (log result : AuditLog)
    : Type 0 where
  pub dropped : List SafetyEvent
  pub parts : dropped ++ result.events ≡ es
  pub counted : result.pruned_count ≡ log.pruned_count + length dropped
  pub anchored : result.anchor ≡ last_hash log.anchor dropped
  pub forced : Forced settings now dropped result.events
  pub bounded : length result.events ≤ settings.retention.max_events
  pub oldest : OldestKept settings now result.events

prunable-forced :
    (settings : Settings) (now : ℕ) (e : SafetyEvent) (xs es : List SafetyEvent)
    → xs ≡ es
    → is_prunable settings now e (length (e ∷ es)) ≡ true
    → (e.ts + settings.retention.max_age_ms < now)
      ⊎ (settings.retention.max_events < suc (length xs))
prunable-forced settings now e xs es same p = rw same ground arith

prune_events-IsPruned :
    (settings : Settings) (now : ℕ) (es : List SafetyEvent) (log : AuditLog)
    → IsPruned settings now es log (prune_events settings now es log)
unfolding prune_events last_hash
prune_events-IsPruned settings now [] log = record {
  dropped = [];
  parts = refl;
  counted = ground arith;
  anchored = refl;
  forced = tt;
  bounded = ground arith;
  oldest = tt;
}
prune_events-IsPruned settings now (e ∷ es) log =
    elim (Bool-cases (is_prunable settings now e (length (e ∷ es)))) [
      | inl p ↦
          let h = prune_events-IsPruned settings now es (drop_oldest settings e log) in
          rw p record {
            dropped = e ∷ h.dropped;
            parts = ap (◌∷◌ e) h.parts;
            counted = ground (arith, h.counted);
            anchored = h.anchored;
            forced = (
              prunable-forced settings now e
                  (h.dropped ++ (prune_events settings now es (drop_oldest settings e log)).events)
                  es h.parts p,
              h.forced,
            );
            bounded = h.bounded;
            oldest = h.oldest;
          }
      | inr p ↦ rw p record {
        dropped = [];
        parts = refl;
        counted = ground arith;
        anchored = refl;
        forced = tt;
        bounded = ground arith;
        oldest = ground arith;
      }
    ]

-- An append drops a first part of the events, the new one at the end included, and nothing else: each
-- of them is too old or one too many; what is left is within the limit, begins with an event that is
-- not too old, and is counted and anchored behind the last that was dropped.
pub append-IsPruned :
    (settings : Settings) (now : ℕ) (event_id : Text) (input : AppendInput) (log : AuditLog)
    → IsPruned settings now
        (log.events ++ sealed settings (unhashed settings now event_id input log) ∷ [])
        log
        (append settings now event_id input log).0
unfolding append prune
append-IsPruned settings now event_id input log =
    let e = sealed settings (unhashed settings now event_id input log) in
    let h = prune_events-IsPruned settings now (log.events ++ e ∷ []) (keep_event settings e log) in
    record {
      dropped = h.dropped;
      parts = h.parts;
      counted = h.counted;
      anchored = h.anchored;
      forced = h.forced;
      bounded = h.bounded;
      oldest = h.oldest;
    }
