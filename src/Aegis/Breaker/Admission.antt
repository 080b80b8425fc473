-- ===== src/Aegis/Breaker/Admission.antt =====
-- Whom the breaker admits.
use please_hire_me.Prelude.{
  ℕ, ◌+◌, ◌≡◌, ◌≢◌, ◌≤◌, refl, sym, ap, subst, ◌∙◌, inl, inr, true, false, Option, none, some, [],
  ◌∷◌, ◌++◌, arith, Bool-cases, if◌then◌else◌, ltb, leb, length, length-append, keep_if, Text,
  insert, lookup-insert_self,
}
use please_hire_me.Aegis.Breaker.{
  BreakerOptions, BreakerState, closed, half_open, opened, Entry, Entries, within_window, entry,
  prune, state_of, admit, admits, violated, record_violation,
}

module _ (options : BreakerOptions) (agent : Text) where
  entry-insert : (e : Entry) (entries : Entries) → entry options agent (insert agent e entries) ≡ e
  unfolding entry
  entry-insert e entries = rw (entry, lookup-insert_self agent e entries) refl

  state_of-opened_at :
      (now t : ℕ) (e : Entry)
      → e.opened_at ≡ some t
      → state_of options now e ≡ (if ltb (t + e.cooldown_ms) now then half_open else opened)
  unfolding state_of
  state_of-opened_at now t e f =
      ap
        (λ (o : Option ℕ). elim o as (λ _. BreakerState) [
          | none ↦ closed
          | some at ↦ if ltb (at + e.cooldown_ms) now then half_open else opened
        ])
        f

  -- An entry that was opened and has a probe in flight admits nothing.
  refused :
      (now t : ℕ) (e : Entry)
      → e.opened_at ≡ some t
      → e.probe_in_flight ≡ true
      → (admit options (state_of options now e) e).1 ≡ false
  unfolding admit
  refused now t e f g =
      ap (λ s. (admit options s e).1) (state_of-opened_at now t e f)
      ∙ elim (Bool-cases (ltb (t + e.cooldown_ms) now)) [
        | inl b ↦ rw (b, g) refl
        | inr b ↦ rw b refl
      ]

  -- An entry that was opened admits only as a probe, which it marks.
  probed :
      (s : BreakerState) (t : ℕ) (e : Entry)
      → s ≢ closed
      → e.opened_at ≡ some t
      → (admit options s e).1 ≡ true
      → ((admit options s e).0.opened_at ≡ some t) × ((admit options s e).0.probe_in_flight ≡ true)
  unfolding admit
  probed opened t e h f g = cc
  probed closed t e h f g = absurd (h refl)
  probed half_open t e h f g = elim (Bool-cases e.probe_in_flight) [
    | inl b ↦ let k : false ≡ true = rw b at g in cc
    | inr b ↦ rw b (f, refl)
  ]

  not_closed : (now t : ℕ) (e : Entry) → e.opened_at ≡ some t → state_of options now e ≢ closed
  not_closed now t e f g = elim (Bool-cases (ltb (t + e.cooldown_ms) now)) [
    | inl b ↦ let k : half_open ≡ closed = rw b at (sym (state_of-opened_at now t e f) ∙ g) in cc
    | inr b ↦ let k : opened ≡ closed = rw b at (sym (state_of-opened_at now t e f) ∙ g) in cc
  ]

  -- After the breaker has opened it admits one probe: until the probe is recorded as a success or as
  -- a violation, it admits no second run, however late.
  pub admits-probe :
      (now later t : ℕ) (entries : Entries)
      → (entry options agent entries).opened_at ≡ some t
      → (admits options now agent entries).1 ≡ true
      → (admits options later agent (admits options now agent entries).0).1 ≡ false
  unfolding admits
  admits-probe now later t entries f g =
      let e = prune options now (entry options agent entries) in
      let e' = (admit options (state_of options now e) e).0 in
      let (h, k) = probed (state_of options now e) t e (not_closed now t e f) f g in
      ap
        (λ (x : Entry).
          (admit options (state_of options later (prune options later x))
            (prune options later x)).1)
        (entry-insert e' entries)
      ∙ refused later t (prune options later e') h k

  violated-opened_at :
      (now : ℕ) (e : Entry)
      → options.threshold ≤ length (keep_if (within_window options now) e.violations) + 1
      → (violated options now e).opened_at ≡ some now
  unfolding violated
  violated-opened_at now e h =
      let recent = keep_if (within_window options now) e.violations in
      let one_more = length-append recent (now ∷ []) in
      let enough : leb options.threshold (length (recent ++ now ∷ [])) ≡ true =
        ground (arith, one_more) in
      rw enough refl

  -- A violation that reaches the threshold within the window opens the breaker: from that instant
  -- until the cooldown that the entry then has is over, the Agent is not admitted.
  pub record_violation-admits :
      (now later : ℕ) (entries : Entries)
      → let before = entry options agent entries in
        let after = (record_violation options now agent entries).0 in
        options.threshold ≤ length (keep_if (within_window options now) before.violations) + 1
        → later ≤ now + (entry options agent after).cooldown_ms
        → (admits options later agent after).1 ≡ false
  unfolding admits record_violation admit
  record_violation-admits now later entries h small =
      let v = violated options now (entry options agent entries) in
      let e = prune options now v in
      let same = entry-insert e entries in
      let f = violated-opened_at now (entry options agent entries) h in
      let in_time : later ≤ now + e.cooldown_ms =
        subst (λ (x : Entry). later ≤ now + x.cooldown_ms) same small in
      let running : ltb (now + e.cooldown_ms) later ≡ false = ground arith in
      let shut : state_of options later (prune options later e) ≡ opened =
        state_of-opened_at later now (prune options later e) f
        ∙ ap (λ b. if b then half_open else opened) running in
      ap
        (λ (x : Entry).
          (admit options (state_of options later (prune options later x))
            (prune options later x)).1)
        same
      ∙ ap (λ s. (admit options s (prune options later e)).1) shut
