-- ===== src/Concord/Merge/Patch.antt =====
-- What it means to apply hunks, and what a well-formed list of hunks is.
use please_hire_me.Prelude.{
  ℕ, suc, ◌+◌, ◌-◌, ◌≤◌, ◌<◌, ◌≡◌, refl, List, [], ◌∷◌, ◌++◌, arith, length, take, drop,
}
use please_hire_me.Concord.Merge.{Line, Hunk}

-- The lines of `base` from index `i` on, with the hunks applied from left to right.
unfoldable pub patch : ℕ → List Hunk → List Line → List Line
patch i [] base = base
patch i (h ∷ hs) base =
    take (h.start - i) base
    ++ (h.inserted ++ patch (h.start + h.deleted) hs (drop (h.start - i + h.deleted) base))

-- The hunks stand in order within `[i, n]`, and an untouched line separates each from the next.
abbrev pub InOrder : ℕ → ℕ → List Hunk → Type 0
InOrder i n [] = Unit {0}
InOrder i n (h ∷ hs) =
    (i ≤ h.start)
    × (h.start + h.deleted ≤ n)
    × (0 < h.deleted + length h.inserted)
    × InOrder (suc (h.start + h.deleted)) n hs

pub InOrder-weaken : {i k : ℕ} (n : ℕ) (hs : List Hunk) → k ≤ i → InOrder i n hs → InOrder k n hs
InOrder-weaken n [] h w = tt
InOrder-weaken n (x ∷ hs) h w = (omega arith, w.1, w.2, w.3)

-- A line in front of every hunk is copied.
pub patch-cons :
    (i n : ℕ) (hs : List Hunk) (x : Line) (base : List Line)
    → InOrder (suc i) n hs
    → patch i hs (x ∷ base) ≡ x ∷ patch (suc i) hs base
unfolding patch
patch-cons i n [] x base w = refl
patch-cons i n (h ∷ hs) x base w =
    let e : h.start - i ≡ suc (h.start - suc i) = omega arith in
    rw e (rw (add-suc-left (h.start - suc i) h.deleted))
  where
    add-suc-left : (a b : ℕ) → suc a + b ≡ suc (a + b)
    add-suc-left a b = omega arith

pub drop-append : {A : Type 0} (xs ys : List A) → drop (length xs) (xs ++ ys) ≡ ys
drop-append [] ys = refl
drop-append (x ∷ xs) ys = drop-append xs ys
