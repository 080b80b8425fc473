-- ===== src/Warrant/Resources/Paths.antt =====
-- A normalised path cannot leave its root, and normalising it again changes nothing.
use please_hire_me.Prelude.{
  ℕ, ◌≡◌, ◌≢◌, refl, sym, ap, ◌∙◌, inl, inr, ◌||◌, List, [], ◌∷◌, ◌++◌, arith, append_assoc,
  append-nil, ◌==◌, Bool-cases, Text, text_eq, text_eq_iff, split_on, push_unit, join_with, All,
  All-append,
}
use please_hire_me.Warrant.Resources.{
  slash, dot, dot_dot, forward_slashes, pop_part, push_part, resolve_parts, in_order,
  normalise_path,
}

-- No code unit of the text is `c`.
abbrev pub Without : ℕ → Text → Type 0
Without c s = All (λ d. d ≢ c) s

push_unit-Without :
    (c d : ℕ) (ps : List Text) → d ≢ c → All (Without c) ps → All (Without c) (push_unit d ps)
unfolding push_unit
push_unit-Without c d [] h a = ((h, tt), tt)
push_unit-Without c d (p ∷ ps) h a = ((h, a.0), a.1)

split_on-Without : (sep c : ℕ) (s : Text) → Without c s → All (Without c) (split_on sep s)
unfolding split_on
split_on-Without sep c [] h = (tt, tt)
split_on-Without sep c (d ∷ s) h = elim (Bool-cases (d == sep)) [
  | inl e ↦ rw e (tt, split_on-Without sep c s h.1)
  | inr e ↦ rw e (push_unit-Without c d (split_on sep s) h.0 (split_on-Without sep c s h.1))
]

split_on-Without_sep : (sep : ℕ) (s : Text) → All (Without sep) (split_on sep s)
unfolding split_on
split_on-Without_sep sep [] = (tt, tt)
split_on-Without_sep sep (d ∷ s) = elim (Bool-cases (d == sep)) [
  | inl e ↦ rw e (tt, split_on-Without_sep sep s)
  | inr e ↦
      rw e (push_unit-Without sep d (split_on sep s) (ground arith) (split_on-Without_sep sep s))
]

split_on_one : (sep : ℕ) (p : Text) → Without sep p → split_on sep p ≡ p ∷ []
unfolding split_on push_unit
split_on_one sep [] h = refl
split_on_one sep (c ∷ p) h = ground (arith, split_on_one sep p h.1)

split_on_more :
    (sep : ℕ) (p t : Text) → Without sep p → split_on sep (p ++ sep ∷ t) ≡ p ∷ split_on sep t
unfolding split_on push_unit
split_on_more sep [] t h = ground arith
split_on_more sep (c ∷ p) t h = ground (arith, split_on_more sep p t h.1)

-- Splitting what was joined gives the parts back, if none holds the separator.
split-join :
    (sep : ℕ) (p : Text) (ps : List Text)
    → All (Without sep) (p ∷ ps)
    → split_on sep (join_with sep (p ∷ ps)) ≡ p ∷ ps
unfolding join_with
split-join sep p [] a = split_on_one sep p a.0
split-join sep p (q ∷ ps) a =
    split_on_more sep p (join_with sep (q ∷ ps)) a.0 ∙ ap (◌∷◌ p) (split-join sep q ps a.1)

-- A part that names something below the directory that it is read in.
abbrev pub IsPlain : Text → Type 0
IsPlain p = (p ≢ []) × (p ≢ dot) × (p ≢ dot_dot) × Without slash p × Without 92 p

pop_part-All : (ps : List Text) → All IsPlain ps → All IsPlain (pop_part ps)
pop_part-All [] a = tt
pop_part-All (p ∷ ps) a = a.1

push_part-IsPlain :
    (part : Text) (out : List Text)
    → Without slash part
    → Without 92 part
    → All IsPlain out
    → All IsPlain (push_part part out)
unfolding push_part
push_part-IsPlain part out h k a = elim (Bool-cases (text_eq part [] || text_eq part dot)) [
  | inl skip ↦ rw skip a
  | inr other ↦ rw other (elim (Bool-cases (text_eq part dot_dot)) [
    | inl up ↦ rw up (pop_part-All out a)
    | inr down ↦ rw down (
      (
        λ e. ground (arith, text_eq_iff part []),
        λ e. ground (arith, text_eq_iff part dot),
        λ e. ground (arith, text_eq_iff part dot_dot),
        h,
        k,
      ),
      a,
    )
  ])
]

resolve_parts-IsPlain :
    (parts out : List Text)
    → All (Without slash) parts
    → All (Without 92) parts
    → All IsPlain out
    → All IsPlain (resolve_parts parts out)
unfolding resolve_parts
resolve_parts-IsPlain [] out h k a = a
resolve_parts-IsPlain (p ∷ parts) out h k a =
    resolve_parts-IsPlain parts (push_part p out) h.1 k.1 (push_part-IsPlain p out h.0 k.0 a)

in_order-All : (ps : List Text) → All IsPlain ps → All IsPlain (in_order ps)
unfolding in_order
in_order-All [] a = tt
in_order-All (p ∷ ps) a = All-append IsPlain (in_order ps) (p ∷ []) (in_order-All ps a.1) (a.0, tt)

forward_slashes-Without : (s : Text) → Without 92 (forward_slashes s)
unfolding forward_slashes
forward_slashes-Without [] = tt
forward_slashes-Without (c ∷ s) = (ground arith, forward_slashes-Without s)

-- The parts that `normalise_path` joins.
abbrev pub parts_of : Text → List Text
parts_of input = in_order (resolve_parts (split_on slash (forward_slashes input)) [])

-- Whatever the input, the normalised path is made of parts none of which is empty, ".", ".." or
-- holds a slash or a backslash.
pub normalise_path-IsPlain :
    (input : Text)
    → (parts : List Text) × (normalise_path input ≡ join_with slash parts) × All IsPlain parts
unfolding normalise_path
normalise_path-IsPlain input =
    let s : Text = forward_slashes input in
    (
      parts_of input,
      refl,
      in_order-All (resolve_parts (split_on slash s) []) (
          resolve_parts-IsPlain (split_on slash s) [] (split_on-Without_sep slash s)
            (split_on-Without slash 92 s (forward_slashes-Without input)) tt),
    )

push_part_plain : (p : Text) (out : List Text) → IsPlain p → push_part p out ≡ p ∷ out
unfolding push_part
push_part_plain p out h = ground (arith, text_eq_iff p [], text_eq_iff p dot, text_eq_iff p dot_dot)

resolve_parts_plain :
    (parts out : List Text)
    → All IsPlain parts
    → in_order (resolve_parts parts out) ≡ in_order out ++ parts
unfolding resolve_parts in_order
resolve_parts_plain [] out a = sym (append-nil (in_order out))
resolve_parts_plain (p ∷ parts) out a =
    ap (λ o. in_order (resolve_parts parts o)) (push_part_plain p out a.0)
    ∙ resolve_parts_plain parts (p ∷ out) a.1
    ∙ append_assoc (in_order out) (p ∷ []) parts

forward_slashes_same : (s : Text) → Without 92 s → forward_slashes s ≡ s
unfolding forward_slashes
forward_slashes_same [] h = refl
forward_slashes_same (c ∷ s) h = ground (arith, forward_slashes_same s h.1)

join_with-Without : (ps : List Text) → All IsPlain ps → Without 92 (join_with slash ps)
unfolding join_with
join_with-Without [] a = tt
join_with-Without (p ∷ []) a = a.0.4
join_with-Without (p ∷ q ∷ ps) a =
    All-append (λ d. d ≢ 92) p (slash ∷ join_with slash (q ∷ ps)) a.0.4
      (λ e. absurd (omega arith), join_with-Without (q ∷ ps) a.1)

plain-Without : (ps : List Text) → All IsPlain ps → All (Without slash) ps
plain-Without [] a = tt
plain-Without (p ∷ ps) a = (a.0.3, plain-Without ps a.1)

parts_of-join : (ps : List Text) → All IsPlain ps → parts_of (join_with slash ps) ≡ ps
unfolding join_with resolve_parts forward_slashes in_order split_on text_eq
parts_of-join [] a = refl
parts_of-join (p ∷ ps) a =
    ap (λ t. in_order (resolve_parts (split_on slash t) []))
      (forward_slashes_same (join_with slash (p ∷ ps)) (join_with-Without (p ∷ ps) a))
    ∙ ap (λ t. in_order (resolve_parts t [])) (split-join slash p ps (plain-Without (p ∷ ps) a))
    ∙ resolve_parts_plain (p ∷ ps) [] a

-- Normalising twice is normalising once.
pub normalise_path_idempotent :
    (input : Text) → normalise_path (normalise_path input) ≡ normalise_path input
unfolding normalise_path
normalise_path_idempotent input =
    let (parts, e, plain) = normalise_path-IsPlain input in
    ap (λ t. join_with slash (parts_of t)) e
    ∙ ap (join_with slash) (parts_of-join parts plain)
    ∙ sym e
