-- ===== src/Concord/Store/Present.antt =====
-- Presence shows who was on the document lately, the asking Agent among them.
use please_hire_me.Prelude.{
  ℕ, ◌+◌, ◌≡◌, ◌⊎◌, ◌<◌, refl, sym, inl, inr, true, false, Option, none, some, List, [], ◌∷◌, arith,
  ltb, Bool-cases, In, All, Text, text_eq, Assoc, values, lookup, lookup-insert_self,
}
use please_hire_me.Concord.DocResource.{doc_resource}
use please_hire_me.Concord.Store.State.{
  Store, AuthzCheck, workspace_read, PresenceEntry, presence_ttl_ms, on_presence, mark,
}
use please_hire_me.Concord.Store.Views.{
  is_fresh, drop_stale, insert_recent, most_recent, live_presence, present, presence_of,
}

abbrev pub IsFresh : ℕ → PresenceEntry → Type 0
IsFresh now e = now < e.at + presence_ttl_ms

insert_recent-All :
    (now : ℕ) (e : PresenceEntry) (xs : List PresenceEntry)
    → IsFresh now e
    → All (IsFresh now) xs
    → All (IsFresh now) (insert_recent e xs)
unfolding insert_recent
insert_recent-All now e [] h a = (h, tt)
insert_recent-All now e (x ∷ xs) h (p, a) = elim (Bool-cases (ltb e.at x.at)) [
  | inl b ↦ rw b (p, insert_recent-All now e xs h a)
  | inr b ↦ rw b (h, (p, a))
]

most_recent-All :
    (now : ℕ) (xs : List PresenceEntry) → All (IsFresh now) xs → All (IsFresh now) (most_recent xs)
unfolding most_recent
most_recent-All now [] a = tt
most_recent-All now (x ∷ xs) (p, a) =
    insert_recent-All now x (most_recent xs) p (most_recent-All now xs a)

insert_recent-In :
    (e x : PresenceEntry) (xs : List PresenceEntry) → (e ≡ x) ⊎ In e xs → In e (insert_recent x xs)
unfolding insert_recent
insert_recent-In e x [] m = m
insert_recent-In e x (y ∷ ys) m = elim (Bool-cases (ltb x.at y.at)) [
  | inl b ↦ rw b (elim m [
    | inl h ↦ inr (insert_recent-In e x ys (inl h))
    | inr k ↦ elim k [ inl h ↦ inl h | inr h ↦ inr (insert_recent-In e x ys (inr h)) ]
  ])
  | inr b ↦ rw b m
]

most_recent-In : (e : PresenceEntry) (xs : List PresenceEntry) → In e xs → In e (most_recent xs)
unfolding most_recent
most_recent-In e [] m = m
most_recent-In e (x ∷ xs) (inl h) = insert_recent-In e x (most_recent xs) (inl h)
most_recent-In e (x ∷ xs) (inr h) =
    insert_recent-In e x (most_recent xs) (inr (most_recent-In e xs h))

drop_stale-All : (now : ℕ) (m : Assoc PresenceEntry) → All (IsFresh now) (values (drop_stale now m))
unfolding drop_stale
drop_stale-All now [] = tt
drop_stale-All now ((k, e) ∷ m) = elim (Bool-cases (is_fresh now e)) [
  | inl b ↦ rw b (ground arith, drop_stale-All now m)
  | inr b ↦ rw b (drop_stale-All now m)
]

lookup-drop_stale :
    (now : ℕ) (k : Text) (e : PresenceEntry) (m : Assoc PresenceEntry)
    → lookup k m ≡ some e
    → IsFresh now e
    → In e (values (drop_stale now m))
unfolding drop_stale lookup
lookup-drop_stale now k e [] f h = cc
lookup-drop_stale now k e ((j, x) ∷ m) f h = elim (Bool-cases (text_eq j k)) [
  | inl same ↦
      let g : some x ≡ some e = rw same at f in
      let eq : x ≡ e = cc in
      let fresh : is_fresh now x ≡ true = ground arith in rw fresh (inl (sym eq))
  | inr other ↦
      let later = lookup-drop_stale now k e m (rw other at f) h in
      elim (Bool-cases (is_fresh now x)) [ inl b ↦ rw b (inr later) | inr b ↦ rw b later ]
]

-- The entry that a mark leaves.
marked_entry :
    (now : ℕ) (doc_id agent : Text) (human : Option Text) (st : Store)
    → (m : Assoc PresenceEntry) × (lookup doc_id
          (mark now doc_id agent human false none st).presence
        ≡ some m)
      × ((e : PresenceEntry) × (lookup agent m ≡ some e) × (e.agent_id ≡ agent) × (e.at ≡ now))
unfolding mark
marked_entry now doc_id agent human st = (
  _,
  lookup-insert_self doc_id _ st.presence,
  (_, lookup-insert_self agent _ (on_presence doc_id st), refl, refl),
)

-- The presence that an Agent may read is of the last fifteen seconds, and has the Agent itself,
-- seen at this instant.
pub presence_of-IsFresh :
    (authorize : AuthzCheck) (now : ℕ) (doc_id agent : Text) (st : Store)
    → (authorize agent workspace_read (doc_resource doc_id)).allowed ≡ true
    → (entries : List PresenceEntry) × ((presence_of authorize now doc_id agent st).1
        ≡ present entries)
      × All (IsFresh now) entries
      × ((e : PresenceEntry) × In e entries × (e.agent_id ≡ agent) × (e.at ≡ now))
unfolding presence_of mark live_presence
presence_of-IsFresh authorize now doc_id agent st right =
    let verdict = authorize agent workspace_read (doc_resource doc_id) in
    let marked = mark now doc_id agent verdict.human_id false none st in
    let (m, there, (e, own, who, when)) = marked_entry now doc_id agent verdict.human_id st in
    let fresh : IsFresh now e = ground arith in
    rw (right, presence_of, live_presence, there)
      (
        most_recent (values (drop_stale now m)),
        refl,
        most_recent-All now (values (drop_stale now m)) (drop_stale-All now m),
        (
          e,
          most_recent-In e (values (drop_stale now m)) (lookup-drop_stale now agent e m own fresh),
          who,
          when,
        ),
      )
