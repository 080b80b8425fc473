-- ===== src/Prelude/Strings.antt =====
-- JavaScript strings as lists of UTF-16 code units, with the string methods that the source uses.
use Prim.Native.Nat.{ℕ, zero, suc, ◌+◌, ◌-◌, ◌*◌, ◌/◌, ◌%◌, ◌≤◌, ◌<◌}
use Prim.Native.Char.{code}
use Prim.Native.String.{String}
use mathlib.Core.Path.{◌≡◌, refl, sym, ap, ◌∙◌}
use mathlib.Core.Logic.{◌↔◌, ◌≢◌, inl, inr}
use mathlib.Core.Bool.{Bool, true, false, ◌&&◌, ◌||◌}
use mathlib.Core.List.{List, [], ◌∷◌, ◌++◌, reverse}
use mathlib.Core.Option.{Option, none, some}
use native.Mathlib.Omega.{arith}
use please_hire_me.Prelude.Tests.{◌==◌, ltb, leb, if◌then◌else◌, ==_iff, Bool-cases}

abbrev pub Text : Type 0
Text = List ℕ

-- The code units of an ASCII literal.
abbrev pub codes : String → Text
codes String.[] = []
codes (String.◌∷◌ c s) = code c ∷ codes s

-- `a === b` on strings.
unfoldable pub text_eq : Text → Text → Bool
text_eq [] [] = true
text_eq [] (d ∷ t) = false
text_eq (c ∷ s) [] = false
text_eq (c ∷ s) (d ∷ t) = (c == d) && text_eq s t

pub text_eq_iff : (s t : Text) → (text_eq s t ≡ true) ↔ (s ≡ t)
unfolding text_eq
text_eq_iff [] [] = ground arith
text_eq_iff [] (d ∷ t) = ground arith
text_eq_iff (c ∷ s) [] = ground arith
text_eq_iff (c ∷ s) (d ∷ t) = ground (arith, text_eq_iff s t)

pub text_eq_refl : (s : Text) → text_eq s s ≡ true
text_eq_refl s = (text_eq_iff s s).1 refl

-- `s.startsWith(p)`.
unfoldable pub starts_with : Text → Text → Bool
starts_with [] s = true
starts_with (c ∷ p) [] = false
starts_with (c ∷ p) (d ∷ s) = (c == d) && starts_with p s

pub starts_with_iff : (p s : Text) → (starts_with p s ≡ true) ↔ ((r : Text) × (s ≡ p ++ r))
unfolding starts_with
starts_with_iff [] s = (λ _. (s, refl), λ _. refl)
starts_with_iff (c ∷ p) [] = (λ e. absurd (ground arith), λ h. ground (arith, h.1))
starts_with_iff (c ∷ p) (d ∷ s) = (
  λ e. let ih = (starts_with_iff p s).0 (ground arith) in (ih.0, ground (arith, ih.1)),
  λ h. ground (arith, (starts_with_iff p s).1 (h.0, ground (arith, h.1))),
)

-- `s.endsWith("/")` for one code unit.
unfoldable pub ends_with : ℕ → Text → Bool
ends_with c [] = false
ends_with c (d ∷ []) = d == c
ends_with c (d ∷ e ∷ s) = ends_with c (e ∷ s)

-- White space as `trim` and `\s` take it.
unfoldable pub is_space : ℕ → Bool
is_space c =
    (leb 9 c && leb c 13)
    || (c == 32)
    || (c == 160)
    || (c == 0x1680)
    || (leb 0x2000 c && leb c 0x200a)
    || (c == 0x2028)
    || (c == 0x2029)
    || (c == 0x202f)
    || (c == 0x205f)
    || (c == 0x3000)
    || (c == 0xfeff)

unfoldable pub trim_start : Text → Text
unfolding is_space
trim_start [] = []
trim_start (c ∷ s) = if is_space c then trim_start s else c ∷ s

unfoldable pub trim : Text → Text
unfolding trim_start
trim s = reverse (trim_start (reverse (trim_start s)))

-- `s.split(sep)` for a separator of one code unit: `n` separators give `n + 1` parts.
unfoldable pub push_unit : ℕ → List Text → List Text
push_unit c [] = (c ∷ []) ∷ []
push_unit c (p ∷ ps) = (c ∷ p) ∷ ps

unfoldable pub split_on : ℕ → Text → List Text
unfolding push_unit
split_on sep [] = [] ∷ []
split_on sep (c ∷ s) =
    let parts = split_on sep s in if c == sep then [] ∷ parts else push_unit c parts

-- `parts.join(sep)`.
unfoldable pub join_with : ℕ → List Text → Text
join_with sep [] = []
join_with sep (p ∷ []) = p
join_with sep (p ∷ q ∷ ps) = p ++ sep ∷ join_with sep (q ∷ ps)

join-push_unit :
    (sep c : ℕ) (p : Text) (ps : List Text)
    → join_with sep (push_unit c (p ∷ ps)) ≡ c ∷ join_with sep (p ∷ ps)
unfolding join_with push_unit
join-push_unit sep c p [] = refl
join-push_unit sep c p (q ∷ ps) = refl

join-push_unit_of_ne :
    (sep c : ℕ) (ps : List Text) → ps ≢ [] → join_with sep (push_unit c ps) ≡ c ∷ join_with sep ps
join-push_unit_of_ne sep c [] h = absurd (h refl)
join-push_unit_of_ne sep c (p ∷ ps) h = join-push_unit sep c p ps

join-nil_cons :
    (sep : ℕ) (ps : List Text) → ps ≢ [] → join_with sep ([] ∷ ps) ≡ sep ∷ join_with sep ps
unfolding join_with
join-nil_cons sep [] h = absurd (h refl)
join-nil_cons sep (p ∷ ps) h = refl

pub split_on-ne-nil : (sep : ℕ) (s : Text) → split_on sep s ≢ []
unfolding split_on push_unit
split_on-ne-nil sep [] = λ e. cc
split_on-ne-nil sep (c ∷ s) = ground arith

-- Splitting and joining on the same separator gives the text back.
pub join-split : (sep : ℕ) (s : Text) → join_with sep (split_on sep s) ≡ s
unfolding split_on join_with
join-split sep [] = refl
join-split sep (c ∷ s) = elim (Bool-cases (c == sep)) [
  | inl e ↦ rw e (
      join-nil_cons sep (split_on sep s) (split_on-ne-nil sep s)
      ∙ ap (◌∷◌ sep) (join-split sep s)
      ∙ ap (λ (t : ℕ). t ∷ s) (sym ((==_iff c sep).0 e)))
  | inr e ↦ rw e (
      join-push_unit_of_ne sep c (split_on sep s) (split_on-ne-nil sep s)
      ∙ ap (◌∷◌ c) (join-split sep s))
]

-- A string or null where the source tests `s ? … : …`: the empty string counts as missing.
abbrev pub truthy : Option Text → Option Text
truthy none = none
truthy (some []) = none
truthy (some (c ∷ s)) = some (c ∷ s)

-- `s.includes(t)`.
unfoldable pub includes : Text → Text → Bool
unfolding starts_with
includes t [] = starts_with t []
includes t (c ∷ s) = starts_with t (c ∷ s) || includes t s

-- `String(n)`: the digits of a number, with one round for each.
unfoldable pub digits : ℕ → ℕ → Text
digits zero n = []
digits (suc rounds) n =
    if ltb n 10 then (n + b'0') ∷ [] else digits rounds (n / 10) ++ (n % 10 + b'0') ∷ []

unfoldable pub decimal : ℕ → Text
unfolding digits
decimal n = digits (suc n) n

-- The number that digits stand for.
abbrev pub number_of : Text → ℕ → ℕ
number_of [] n = n
number_of (c ∷ s) n = number_of s (n * 10 + (c - b'0'))

number_of-append : (s t : Text) (n : ℕ) → number_of (s ++ t) n ≡ number_of t (number_of s n)
number_of-append [] t n = refl
number_of-append (c ∷ s) t n = number_of-append s t (n * 10 + (c - b'0'))

number_of-digits : (rounds n : ℕ) → n < rounds → number_of (digits rounds n) 0 ≡ n
unfolding digits
number_of-digits zero n h = absurd (omega arith)
number_of-digits (suc rounds) n h = elim (Bool-cases (ltb n 10)) [
  | inl small ↦ rw small (omega arith)
  | inr large ↦
      let big : 10 ≤ n = ground arith in
      rw large (
        number_of-append (digits rounds (n / 10)) ((n % 10 + b'0') ∷ []) 0
        ∙ rw (number_of-digits rounds (n / 10) (omega arith)) (omega arith))
]

pub number_of-decimal : (n : ℕ) → number_of (decimal n) 0 ≡ n
unfolding decimal
number_of-decimal n = number_of-digits (suc n) n (omega arith)

pub decimal_inj : (m n : ℕ) → decimal m ≡ decimal n → m ≡ n
decimal_inj m n e = sym (number_of-decimal m) ∙ ap (λ s. number_of s 0) e ∙ number_of-decimal n
