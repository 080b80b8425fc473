-- ===== src/Aegis/Audit/Chain.antt =====
-- The chain of hashes.
use please_hire_me.Prelude.{
  ℕ, suc, ◌≡◌, ◌↔◌, inl, inr, refl, sym, ◌∙◌, none, List, [], ◌∷◌, ◌++◌, arith, length, Bool-cases,
  Text, text_eq, text_eq_iff,
}
use please_hire_me.Aegis.Audit.{
  SafetyEvent, Settings, AppendInput, AuditLog, hash_event, append, prune, prune_events,
  drop_oldest, is_prunable, verify, verify_list, verify_from, initialize, restore_all, restore,
  empty_log, genesis, unhashed, sealed, keep_event,
}

-- The hash after some events that follow `previous`.
unfoldable pub last_hash : Text → List SafetyEvent → Text
last_hash previous [] = previous
last_hash previous (e ∷ es) = last_hash e.hash es

last_hash-append :
    (previous : Text) (es : List SafetyEvent) (e : SafetyEvent)
    → last_hash previous (es ++ e ∷ []) ≡ e.hash
unfolding last_hash
last_hash-append previous [] e = refl
last_hash-append previous (x ∷ es) e = last_hash-append x.hash es e

module _ (settings : Settings) where
  -- Each event names the hash before it and has the hash of what it covers.
  abbrev pub Chained : Text → List SafetyEvent → Type 0
  Chained previous [] = Unit
  Chained previous (e ∷ es) =
      (e.prev_hash ≡ previous) × ((hash_event settings e ≡ e.hash) × Chained e.hash es)

  pub verify_from_iff :
      (previous : Text) (es : List SafetyEvent) (index : ℕ)
      → (verify_from settings previous es index ≡ none) ↔ Chained previous es
  unfolding verify_from
  verify_from_iff previous [] index = (λ _. tt, λ _. refl)
  verify_from_iff previous (e ∷ es) index = elim (Bool-cases (text_eq e.prev_hash previous)) [
    | inl p ↦ elim (Bool-cases (text_eq (hash_event settings e) e.hash)) [
      | inl h ↦
          rw (p, h)
            (
              λ v. (
                (text_eq_iff e.prev_hash previous).0 p,
                (
                  (text_eq_iff (hash_event settings e) e.hash).0 h,
                  (verify_from_iff e.hash es (suc index)).0 v,
                ),
              ),
              λ c. (verify_from_iff e.hash es (suc index)).1 c.1.1,
            )
      | inr h ↦
          rw (p, h)
            (
              λ v. ground arith,
              λ c. ground (arith, text_eq_iff (hash_event settings e) e.hash, c.1.0),
            )
    ]
    | inr p ↦ rw p (λ v. ground arith, λ c. ground (arith, text_eq_iff e.prev_hash previous, c.0))
  ]

  Chained-append :
      (previous : Text) (es : List SafetyEvent) (e : SafetyEvent)
      → Chained previous es
      → e.prev_hash ≡ last_hash previous es
      → hash_event settings e ≡ e.hash
      → Chained previous (es ++ e ∷ [])
  unfolding last_hash
  Chained-append previous [] e c p h = (p, (h, tt))
  Chained-append previous (x ∷ es) e (q, (k, c)) p h = (q, (k, Chained-append x.hash es e c p h))

-- What every log satisfies: what it retains is chained from the anchor to the head, and what is
-- written from the first event on.
pub record IsSound (settings : Settings) (log : AuditLog) : Type 0 where
  pub chained : Chained settings log.anchor log.events
  pub ends : last_hash log.anchor log.events ≡ log.head
  pub written : Chained settings genesis log.file
  pub written_ends : last_hash genesis log.file ≡ log.head

restore_all-frame :
    (es : List SafetyEvent) (log : AuditLog)
    → ((restore_all es log).anchor ≡ log.anchor) × ((restore_all es log).file ≡ log.file)
unfolding restore_all restore
restore_all-frame [] log = (refl, refl)
restore_all-frame (x ∷ es) log = restore_all-frame es (restore x log)

module _ (settings : Settings) where
  prune_events-IsSound :
      (now : ℕ) (es : List SafetyEvent) (log : AuditLog)
      → IsSound settings (record log { events = es })
      → IsSound settings (prune_events settings now es log)
  unfolding prune_events last_hash
  prune_events-IsSound now [] log h = h
  prune_events-IsSound now (e ∷ es) log h =
      elim (Bool-cases (is_prunable settings now e (length (e ∷ es)))) [
        | inl p ↦ rw p (
            prune_events-IsSound now es (drop_oldest settings e log) record {
              chained = h.chained.1.1;
              ends = h.ends;
              written = h.written;
              written_ends = h.written_ends;
            })
        | inr p ↦ rw p h
      ]

  append-IsSound :
      (now : ℕ) (event_id : Text) (input : AppendInput) (log : AuditLog)
      → IsSound settings log
      → IsSound settings (append settings now event_id input log).0
  unfolding append prune
  append-IsSound now event_id input log h =
      let e = sealed settings (unhashed settings now event_id input log) in
      prune_events-IsSound now (log.events ++ e ∷ []) (keep_event settings e log) record {
        chained = Chained-append settings log.anchor log.events e h.chained (sym h.ends) refl;
        ends = last_hash-append log.anchor log.events e;
        written = Chained-append settings genesis log.file e h.written (sym h.written_ends) refl;
        written_ends = last_hash-append genesis log.file e;
      }

  restore_all-IsSound :
      (es : List SafetyEvent) (log : AuditLog)
      → Chained settings log.anchor log.events
      → last_hash log.anchor log.events ≡ log.head
      → Chained settings log.head es
      → (Chained settings log.anchor (restore_all es log).events)
        × ((last_hash log.anchor (restore_all es log).events ≡ (restore_all es log).head)
            × ((restore_all es log).head ≡ last_hash log.head es))
  unfolding restore_all restore last_hash
  restore_all-IsSound [] log c e k = (c, (e, refl))
  restore_all-IsSound (x ∷ es) log c e k =
      restore_all-IsSound es (restore x log)
        (Chained-append settings log.anchor log.events x c (k.0 ∙ sym e) k.1.0)
        (last_hash-append log.anchor log.events x) k.1.1

  initialize-IsSound :
      (file : List SafetyEvent) → Chained settings genesis file → IsSound settings (initialize file)
  unfolding initialize last_hash
  initialize-IsSound file k =
      let all = restore_all-IsSound file (empty_log file) tt refl k in
      let frame = restore_all-frame file (empty_log file) in
      record {
        chained = rw frame.0 all.0;
        ends = rw frame.0 all.1.0;
        written = rw frame.1 k;
        written_ends = rw frame.1 (sym all.1.1);
      }

-- What happens to a log: an event at an instant, or a restart of the server, which reads the file.
pub data Operation : Type 0 where
  recorded : ℕ → Text → AppendInput → Operation
  restarted : Operation

module _ (settings : Settings) where
  unfoldable pub perform : Operation → AuditLog → AuditLog
  perform (recorded now event_id input) log = (append settings now event_id input log).0
  perform restarted log = initialize log.file

  unfoldable pub perform_all : List Operation → AuditLog → AuditLog
  unfolding perform
  perform_all [] log = log
  perform_all (o ∷ os) log = perform_all os (perform o log)

  perform_all-IsSound :
      (os : List Operation) (log : AuditLog)
      → IsSound settings log
      → IsSound settings (perform_all os log)
  unfolding perform_all perform
  perform_all-IsSound [] log h = h
  perform_all-IsSound (recorded now event_id input ∷ os) log h =
      perform_all-IsSound os (append settings now event_id input log).0
        (append-IsSound settings now event_id input log h)
  perform_all-IsSound (restarted ∷ os) log h =
      perform_all-IsSound os (initialize log.file) (initialize-IsSound settings log.file h.written)

  verify_list-Chained :
      (file : List SafetyEvent) → Chained settings genesis file → verify_list settings file ≡ none
  unfolding verify_list
  verify_list-Chained [] k = (verify_from_iff settings genesis [] 0).1 k
  verify_list-Chained (e ∷ es) k = (verify_from_iff settings e.prev_hash (e ∷ es) 0).1 (refl, k.1)

-- After any events and restarts, with whatever was pruned in between, both the events that the log
-- retains and those of its file verify, and both end in the head of the chain.
pub perform_all-verify :
    (settings : Settings) (os : List Operation)
    → let log = perform_all settings os (initialize []) in
      (verify settings log ≡ none)
      × ((verify_list settings log.file ≡ none)
          × ((last_hash log.anchor log.events ≡ log.head)
              × (last_hash genesis log.file ≡ log.head)))
unfolding verify
perform_all-verify settings os =
    let log = perform_all settings os (initialize []) in
    let h = perform_all-IsSound settings os (initialize []) (initialize-IsSound settings [] tt) in
    (
      (verify_from_iff settings log.anchor log.events 0).1 h.chained,
      (verify_list-Chained settings log.file h.written, (h.ends, h.written_ends)),
    )
