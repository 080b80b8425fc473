-- ===== src/Concord/Store/Exclusion.antt =====
-- A lease keeps the others out until it ends.
use please_hire_me.Prelude.{
  ℕ, ◌+◌, ◌≡◌, ◌≢◌, ◌<◌, refl, sym, ap, ap₂, ◌∙◌, inl, inr, true, false, Option, none, some, arith,
  Bool-cases, Option-cases, Text, text_eq_iff, lookup, lookup-insert_self, leb, if◌then◌else◌,
}
use please_hire_me.Concord.DocResource.{doc_resource}
use please_hire_me.Concord.Store.State.{
  Store, SharedDoc, AuthzCheck, workspace_write, Lease, ensure, reap_lease, mark, held_by_other,
}
use please_hire_me.Concord.Store.Commit.{WriteOptions}
use please_hire_me.Concord.Store.Write.{leased, entered, write, write_doc}
use please_hire_me.Concord.Store.Leases.{
  acquired, lease_denied, held_elsewhere, acquire_lease, ttl_or_default,
}

-- The document as `acquire_lease` leaves it.
acquired_doc :
    (authorize : AuthzCheck) (now : ℕ) (doc_id agent : Text) (ttl_ms : Option ℕ) (st : Store)
    (lease : Lease)
    → (acquire_lease authorize now doc_id agent ttl_ms st).1 ≡ acquired lease
    → (doc : SharedDoc) × (lookup doc_id (acquire_lease authorize now doc_id agent ttl_ms st).0.docs
        ≡ some doc)
      × (doc.lease ≡ some lease)
      × (lease.holder ≡ agent)
      × (lease.expires_at ≡ now + ttl_or_default ttl_ms)
unfolding acquire_lease mark
acquired_doc authorize now doc_id agent ttl_ms st lease e =
    let verdict = authorize agent workspace_write (doc_resource doc_id) in
    let doc = entered now doc_id st in
    elim (Bool-cases verdict.allowed) [
      | inr no_right ↦ absurd (
          let f : lease_denied verdict.reason ≡ acquired lease =
            rw (no_right, acquire_lease) at e in
          cc)
      | inl right ↦ elim (Option-cases (held_by_other agent doc.lease)) [
        | inr (l, h) ↦ absurd (
            let f : held_elsewhere l.holder ≡ acquired lease = rw (right, h, acquire_lease) at e in
            cc)
        | inl h ↦
            let taken : Lease = record {
              holder = agent;
              human_id = verdict.human_id;
              acquired_at = now;
              expires_at = now + ttl_or_default ttl_ms;
            } in
            let f : acquired taken ≡ acquired lease = rw (right, h, acquire_lease) at e in
            let same : taken ≡ lease = cc in
            (
              record doc { lease = some taken },
              rw (right, h, acquire_lease)
                  (lookup-insert_self doc_id (record doc { lease = some taken }) st.docs),
              ap some same,
              ap Lease.holder (sym same),
              ap Lease.expires_at (sym same),
            )
      ]
    ]

ensure_there :
    (now : ℕ) (doc_id : Text) (st : Store) (doc : SharedDoc)
    → lookup doc_id st.docs ≡ some doc
    → ensure now doc_id st ≡ doc
unfolding ensure
ensure_there now doc_id st doc e = rw (ensure, e) refl

reap_lease-running :
    (now : ℕ) (doc : SharedDoc) (l : Lease)
    → doc.lease ≡ some l
    → now < l.expires_at
    → reap_lease now doc ≡ doc
unfolding reap_lease
reap_lease-running now doc l f g =
    let running : leb l.expires_at now ≡ false = ground arith in
    ap
      (λ (o : Option Lease). elim o as (λ _. SharedDoc) [
        | none ↦ doc
        | some k ↦ if leb k.expires_at now then record doc { lease = none } else doc
      ])
      f
    ∙ ap (λ b. if b then record doc { lease = none } else doc) running

entered_running :
    (now : ℕ) (doc_id : Text) (st : Store) (doc : SharedDoc) (l : Lease)
    → lookup doc_id st.docs ≡ some doc
    → doc.lease ≡ some l
    → now < l.expires_at
    → entered now doc_id st ≡ doc
entered_running now doc_id st doc l e f g =
    ap (reap_lease now) (ensure_there now doc_id st doc e) ∙ reap_lease-running now doc l f g

module _ (uuid : ℕ → Text) (authorize : AuthzCheck) (now later : ℕ) (doc_id agent other : Text)
    (ttl_ms : Option ℕ) (expected : ℕ) (content : Text) (options : WriteOptions) where
  leased_write :
      (st : Store) (doc : SharedDoc) (l : Lease)
      → lookup doc_id st.docs ≡ some doc
      → doc.lease ≡ some l
      → l.holder ≢ other
      → later < l.expires_at
      → (authorize other workspace_write (doc_resource doc_id)).allowed ≡ true
      → (st' : Store) × (write uuid authorize later doc_id other expected content options st
          ≡ some (st', leased l.holder l.expires_at))
        × (lookup doc_id st'.docs ≡ some doc)
  unfolding write write_doc mark
  leased_write st doc l e f differ g right =
      let same : entered later doc_id st ≡ doc = entered_running later doc_id st doc l e f g in
      let held : held_by_other other (entered later doc_id st).lease ≡ some l =
        ap (λ (d : SharedDoc). held_by_other other d.lease) same
        ∙ ap (held_by_other other) f
        ∙ ground (arith, text_eq_iff l.holder other) in
      rw (right, write, held, write_doc)
        (_, refl, lookup-insert_self doc_id (entered later doc_id st) st.docs ∙ ap some same)

  -- Once an Agent has a lease, a write by any other Agent that the policy allows is refused for it,
  -- with its holder and its end, as long as the lease runs; the write does not touch the document.
  pub acquire_lease-write :
      (st : Store) (lease : Lease)
      → (acquire_lease authorize now doc_id agent ttl_ms st).1 ≡ acquired lease
      → agent ≢ other
      → later < now + ttl_or_default ttl_ms
      → (authorize other workspace_write (doc_resource doc_id)).allowed ≡ true
      → let held = (acquire_lease authorize now doc_id agent ttl_ms st).0 in
        (doc : SharedDoc) × (st' : Store) × (lookup doc_id held.docs ≡ some doc)
        × (write uuid authorize later doc_id other expected content options held
            ≡ some (st', leased agent (now + ttl_or_default ttl_ms)))
        × (lookup doc_id st'.docs ≡ some doc)
  acquire_lease-write st lease e differ small right =
      let held = (acquire_lease authorize now doc_id agent ttl_ms st).0 in
      let (doc, f, g, h, k) = acquired_doc authorize now doc_id agent ttl_ms st lease e in
      let (st', m, n) =
        leased_write held doc lease f g (λ p. differ (sym h ∙ p)) (omega arith) right in
      (doc, st', f, m ∙ ap₂ (λ who ends. some (st', leased who ends)) h k, n)
