-- ===== src/Prelude/Maps.antt =====
-- A JavaScript `Map` with string keys, in insertion order.
use mathlib.Core.Path.{◌≡◌, refl, sym, ap, subst, ◌∙◌}
use mathlib.Core.Logic.{◌⊎◌, inl, inr}
use mathlib.Core.Bool.{true, false}
use mathlib.Core.List.{List, [], ◌∷◌, ◌++◌, append-nil, append_assoc}
use mathlib.Core.Option.{Option, none, some}
use native.Mathlib.Omega.{arith}
use please_hire_me.Prelude.Tests.{if◌then◌else◌, Bool-cases}
use please_hire_me.Prelude.Lists.{In, All}
use please_hire_me.Prelude.Strings.{Text, text_eq, text_eq_iff, text_eq_refl}

abbrev pub Assoc {ℓ} : Type ℓ → Type ℓ
Assoc V = List (Text × V)

module _ {ℓ} {V : Type ℓ} where
  unfoldable pub lookup : Text → Assoc V → Option V
  lookup k [] = none
  lookup k ((j, v) ∷ m) = if text_eq j k then some v else lookup k m

  -- `map.set(k, v)`: an old key keeps its place.
  unfoldable pub insert : Text → V → Assoc V → Assoc V
  insert k v [] = (k, v) ∷ []
  insert k v ((j, w) ∷ m) = if text_eq j k then (j, v) ∷ m else (j, w) ∷ insert k v m

  -- `map.delete(k)`.
  unfoldable pub remove : Text → Assoc V → Assoc V
  remove k [] = []
  remove k ((j, w) ∷ m) = let rest = remove k m in if text_eq j k then rest else (j, w) ∷ rest

  abbrev pub values : Assoc V → List V
  values [] = []
  values ((k, v) ∷ m) = v ∷ values m

  pub lookup-insert :
      (k j : Text) (v : V) (m : Assoc V)
      → lookup j (insert k v m) ≡ (if text_eq k j then some v else lookup j m)
  unfolding lookup insert
  lookup-insert k j v [] = refl
  lookup-insert k j v ((i, w) ∷ m) =
      ground (arith, text_eq_iff k j, text_eq_iff i k, text_eq_iff i j, lookup-insert k j v m)

  pub lookup-insert_self : (k : Text) (v : V) (m : Assoc V) → lookup k (insert k v m) ≡ some v
  lookup-insert_self k v m = rw (lookup-insert, text_eq_refl k)

  pub lookup-remove :
      (k j : Text) (m : Assoc V)
      → lookup j (remove k m) ≡ (if text_eq k j then none else lookup j m)
  unfolding lookup remove
  lookup-remove k j [] = ground arith
  lookup-remove k j ((i, w) ∷ m) =
      ground (arith, text_eq_iff k j, text_eq_iff i k, text_eq_iff i j, lookup-remove k j m)

  -- What is found after an insertion is the new value, or an old one under another key.
  pub lookup-insert_cases :
      (k j : Text) (v a : V) (m : Assoc V)
      → lookup j (insert k v m) ≡ some a
      → ((k ≡ j) × (v ≡ a)) ⊎ ((text_eq k j ≡ false) × (lookup j m ≡ some a))
  lookup-insert_cases k j v a m e = ground (arith, lookup-insert k j v m, text_eq_iff k j)

  -- An insertion under a new key keeps what was there.
  pub lookup-insert_new :
      (k j : Text) (v a : V) (m : Assoc V)
      → lookup k m ≡ none
      → lookup j m ≡ some a
      → lookup j (insert k v m) ≡ some a
  lookup-insert_new k j v a m e f = elim (Bool-cases (text_eq k j)) [
    | inl same ↦ cc (sym e ∙ ap (λ t. lookup t m) ((text_eq_iff k j).0 same) ∙ f)
    | inr other ↦ lookup-insert k j v m ∙ rw other f
  ]

-- No key stands twice.
abbrev pub Distinct {ℓ} : {V : Type ℓ} → Assoc V → Type ℓ
Distinct [] = Unit
Distinct ((k, v) ∷ m) = (lookup k m ≡ none) × Distinct m

pub insert-Distinct {ℓ} :
    {V : Type ℓ} (k : Text) (v : V) (m : Assoc V) → Distinct m → Distinct (insert k v m)
unfolding lookup insert
insert-Distinct k v [] d = (refl, _)
insert-Distinct k v ((j, w) ∷ m) (new, d) = elim (Bool-cases (text_eq j k)) [
  | inl same ↦ rw (same, insert) (new, d)
  | inr other ↦
      let apart : text_eq k j ≡ false = ground (arith, text_eq_iff k j, text_eq_iff j k) in
      let kept : lookup j (insert k v m) ≡ none = lookup-insert k j v m ∙ rw apart new in
      rw (other, insert) (kept, insert-Distinct k v m d)
]

-- What holds of every entry.
module _ {V : Type 0} (P : Text → V → Type 0) where
  abbrev pub Entries : Assoc V → Type 0
  Entries [] = Unit
  Entries ((k, v) ∷ m) = P k v × Entries m

  pub lookup-Entries : (k : Text) (v : V) (m : Assoc V) → Entries m → lookup k m ≡ some v → P k v
  unfolding lookup
  lookup-Entries k v [] h e = cc
  lookup-Entries k v ((j, w) ∷ m) (p, h) e = elim (Bool-cases (text_eq j k)) [
    | inl same ↦
        let e' : w ≡ v = cc (rw same at e) in
        subst (λ i. P i v) ((text_eq_iff j k).0 same) (subst (λ u. P j u) e' p)
    | inr other ↦ lookup-Entries k v m h (rw other at e)
  ]

  pub insert-Entries : (k : Text) (v : V) (m : Assoc V) → P k v → Entries m → Entries (insert k v m)
  unfolding insert
  insert-Entries k v [] p _ = (p, _)
  insert-Entries k v ((j, w) ∷ m) p (q, h) = elim (Bool-cases (text_eq j k)) [
    | inl same ↦ rw (same, insert) (subst (λ i. P i v) (sym ((text_eq_iff j k).0 same)) p, h)
    | inr other ↦ rw (other, insert) (q, insert-Entries k v m p h)
  ]

module _ {V : Type 0} where
  pub values-All :
      (P : Text → V → Type 0) (Q : V → Type 0)
      → ((k : Text) (v : V) → P k v → Q v)
      → (m : Assoc V) → Entries P m
      → All Q (values m)
  values-All P Q f [] _ = _
  values-All P Q f ((k, v) ∷ m) (p, h) = (f k v p, values-All P Q f m h)

  pub lookup-In_values : (k : Text) (v : V) (m : Assoc V) → lookup k m ≡ some v → In v (values m)
  unfolding lookup
  lookup-In_values k v [] e = cc
  lookup-In_values k v ((j, w) ∷ m) e = elim (Bool-cases (text_eq j k)) [
    | inl same ↦ inl (cc (rw same at e))
    | inr other ↦ inr (lookup-In_values k v m (rw other at e))
  ]

module _ {V : Type 0} where
  pub lookup-append_none :
      (k : Text) (m n : Assoc V)
      → lookup k (m ++ n) ≡ none
      → (lookup k m ≡ none) × (lookup k n ≡ none)
  unfolding lookup
  lookup-append_none k [] n e = (refl, e)
  lookup-append_none k ((j, v) ∷ m) n e = elim (Bool-cases (text_eq j k)) [
    | inl same ↦ cc (rw same at e)
    | inr other ↦ let (a, b) = lookup-append_none k m n (rw other at e) in (rw other a, b)
  ]

  -- A new key goes to the end.
  pub insert-new :
      (k : Text) (v : V) (m : Assoc V) → lookup k m ≡ none → insert k v m ≡ m ++ (k, v) ∷ []
  unfolding lookup insert
  insert-new k v [] e = refl
  insert-new k v ((j, w) ∷ m) e = elim (Bool-cases (text_eq j k)) [
    | inl same ↦ cc (rw same at e)
    | inr other ↦ rw (other, insert) (ap (◌∷◌ (j, w)) (insert-new k v m (rw other at e)))
  ]

  pub Distinct-append_new :
      (k : Text) (v : V) (m n : Assoc V) → Distinct (m ++ (k, v) ∷ n) → lookup k m ≡ none
  unfolding lookup
  Distinct-append_new k v [] n d = refl
  Distinct-append_new k v ((j, w) ∷ m) n (new, d) =
      let (before, after) = lookup-append_none j m ((k, v) ∷ n) new in
      elim (Bool-cases (text_eq j k)) [
        | inl same ↦
            let same' : text_eq k j ≡ true = (text_eq_iff k j).1 (sym ((text_eq_iff j k).0 same)) in
            cc (rw same' at after)
        | inr other ↦ rw other (Distinct-append_new k v m n d)
      ]

  -- Entries that are inserted one after the other, each under a new key.
  abbrev pub insert_all : (V → Text) → List V → Assoc V → Assoc V
  insert_all key [] m = m
  insert_all key (v ∷ vs) m = insert_all key vs (insert (key v) v m)

  pub insert_all-values :
      (key : V → Text) (m acc : Assoc V)
      → Entries (λ k v. k ≡ key v) m
      → Distinct (acc ++ m)
      → insert_all key (values m) acc ≡ acc ++ m
  insert_all-values key [] acc h d = sym (append-nil acc)
  insert_all-values key ((k, v) ∷ m) acc (e, h) d =
      let new = Distinct-append_new k v acc m d in
      let step : insert (key v) v acc ≡ acc ++ (k, v) ∷ [] =
        ap (λ i. insert i v acc) (sym e) ∙ insert-new k v acc new in
      let assoc : (acc ++ (k, v) ∷ []) ++ m ≡ acc ++ (k, v) ∷ m =
        append_assoc acc ((k, v) ∷ []) m in
      ap (insert_all key (values m)) step
      ∙ insert_all-values key m (acc ++ (k, v) ∷ []) h (subst (λ l. Distinct l) (sym assoc) d)
      ∙ assoc
