-- ===== src/Concord/Merge/Diff.antt =====
-- The diff is correct: its hunks are well formed, and applying them gives the other text.
use please_hire_me.Prelude.{
  ℕ, suc, ◌+◌, ◌-◌, ◌≤◌, ◌<◌, ◌≡◌, refl, ap, ap₂, subst, ◌∙◌, inl, inr, true, false, none, some,
  List, [], ◌∷◌, ◌++◌, arith, length, append-nil, append_assoc, text_eq, text_eq_iff, text_eq_refl,
  Bool-cases, leb, length-append,
}
use please_hire_me.Concord.Merge.{
  Line, Hunk, Pending, cell, open_at, delete_lines, insert_lines, flush, diff_loop, diff_lines,
}
use please_hire_me.Concord.Merge.Patch.{patch, InOrder, patch-cons, drop-append}

-- An open hunk ends where the loop stands, and has changed something.
abbrev Ready : ℕ → Pending → Type 0
Ready i none = Unit {0}
Ready i (some h) = (h.start + h.deleted ≡ i) × (0 < h.deleted + length h.inserted)

Ready-delete :
    (i n : ℕ) (p : Pending)
    → Ready i p
    → 0 < n
    → Ready (i + n) (some (delete_lines n (open_at i p)))
Ready-delete i n none r h = (omega arith, omega arith)
Ready-delete i n (some k) r h = (omega arith, omega arith)

Ready-delete_one :
    (i : ℕ) (p : Pending) → Ready i p → Ready (suc i) (some (delete_lines 1 (open_at i p)))
Ready-delete_one i none r = (omega arith, omega arith)
Ready-delete_one i (some k) r = (omega arith, omega arith)

Ready-insert :
    (i : ℕ) (y : Line) (ys : List Line) (p : Pending)
    → Ready i p
    → Ready i (some (insert_lines (y ∷ ys) (open_at i p)))
Ready-insert i y ys none r = (omega arith, omega arith)
Ready-insert i y ys (some k) r = (omega arith, omega (arith, length-append k.inserted (y ∷ ys)))

flush-InOrder :
    (i n k : ℕ) (p : Pending) (later : List Hunk)
    → Ready i p
    → k ≤ (open_at i p).start
    → i ≤ n
    → InOrder (suc i) n later
    → InOrder k n (flush p later)
flush-InOrder i n k none later r h m w = InOrder-weaken' later w
  where
    InOrder-weaken' : (hs : List Hunk) → InOrder (suc i) n hs → InOrder k n hs
    InOrder-weaken' [] w = tt
    InOrder-weaken' (x ∷ hs) w = (omega arith, w.1, w.2, w.3)
flush-InOrder i n k (some x) later r h m w =
    let e : x.start + x.deleted ≡ i = r.0 in (h, omega arith, r.1, rw e w)

open_at-start-le : (i : ℕ) (p : Pending) → Ready i p → (open_at i p).start ≤ i
open_at-start-le i none r = omega arith
open_at-start-le i (some h) r = omega arith

-- The three steps of the loop.
module _ (table : List (List ℕ)) (i j : ℕ) (p : Pending) (x y : Line) (xs ys : List Line) where
  step_same :
      text_eq x y ≡ true
      → diff_loop table i j p (x ∷ xs) (y ∷ ys)
        ≡ flush p (diff_loop table (suc i) (suc j) none xs ys)
  unfolding diff_loop
  step_same e = rw (e, diff_loop)

  step_down :
      text_eq x y ≡ false
      → leb (cell table i (suc j)) (cell table (suc i) j) ≡ true
      → diff_loop table i j p (x ∷ xs) (y ∷ ys)
        ≡ diff_loop table (suc i) j (some (delete_lines 1 (open_at i p))) xs (y ∷ ys)
  unfolding diff_loop
  step_down e d = rw (e, diff_loop) (rw (d, diff_loop))

  step_right :
      text_eq x y ≡ false
      → leb (cell table i (suc j)) (cell table (suc i) j) ≡ false
      → diff_loop table i j p (x ∷ xs) (y ∷ ys)
        ≡ diff_loop table i (suc j) (some (insert_lines (y ∷ []) (open_at i p))) (x ∷ xs) ys
  unfolding diff_loop
  step_right e d = rw (e, diff_loop) (rw (d, diff_loop))

-- The hunks of the loop are well formed.
diff_loop-InOrder :
    (table : List (List ℕ)) (i j k n : ℕ) (p : Pending) (xs ys : List Line)
    → Ready i p
    → k ≤ (open_at i p).start
    → i + length xs ≡ n
    → InOrder k n (diff_loop table i j p xs ys)
unfolding diff_loop
diff_loop-InOrder table i j k n p [] [] r h e = flush-InOrder i n k p [] r h (omega arith) tt
diff_loop-InOrder table i j k n p [] (y ∷ ys) r h e =
    let s = Ready-insert i y ys p r in (h, omega arith, s.1, tt)
diff_loop-InOrder table i j k n p (x ∷ xs) [] r h e =
    let s = Ready-delete i (length (x ∷ xs)) p r (omega arith) in (h, omega arith, s.1, tt)
diff_loop-InOrder table i j k n p (x ∷ xs) (y ∷ ys) r h e = elim (Bool-cases (text_eq x y)) [
  | inl same ↦ rw (step_same table i j p x y xs ys same) (
      flush-InOrder i n k p _ r h (omega arith) (
        diff_loop-InOrder table (suc i) (suc j) (suc i) n none xs ys tt (omega arith)
          (omega arith)))
  | inr differ ↦ elim (Bool-cases (leb (cell table i (suc j)) (cell table (suc i) j))) [
    | inl down ↦ rw (step_down table i j p x y xs ys differ down) (
        diff_loop-InOrder table (suc i) j k n (some (delete_lines 1 (open_at i p))) xs (y ∷ ys)
          (Ready-delete_one i p r) h (omega arith))
    | inr right ↦ rw (step_right table i j p x y xs ys differ right) (
        diff_loop-InOrder table i (suc j) k n (some (insert_lines (y ∷ []) (open_at i p))) (x ∷ xs)
          ys (Ready-insert i y [] p r) h e)
  ]
]

-- Applying the hunks of the loop to the lines that an open hunk has deleted and to `xs` gives the
-- lines that it has inserted and `ys`.
patch_open :
    (h : Hunk) (later : List Hunk) (gone xs : List Line)
    → length gone ≡ h.deleted
    → patch h.start (h ∷ later) (gone ++ xs) ≡ h.inserted ++ patch (h.start + h.deleted) later xs
unfolding patch
patch_open h later gone xs e =
    let z : h.start - h.start ≡ 0 = omega arith in
    rw z (rw (zero_plus h.deleted) (rw (← e) (rw (drop-append gone xs))))
  where
    zero_plus : (n : ℕ) → 0 + n ≡ n
    zero_plus n = omega arith

flush-patch :
    (i : ℕ) (p : Pending) (later : List Hunk) (gone xs : List Line)
    → Ready i p
    → length gone ≡ (open_at i p).deleted
    → patch (open_at i p).start (flush p later) (gone ++ xs)
      ≡ (open_at i p).inserted ++ patch i later xs
flush-patch i none later [] xs r e = refl
flush-patch i none later (g ∷ gone) xs r e = absurd (omega arith)
flush-patch i (some h) later gone xs r e =
    patch_open h later gone xs e ∙ ap (λ t. h.inserted ++ patch t later xs) r.0

diff_loop-patch :
    (table : List (List ℕ)) (i j : ℕ) (p : Pending) (xs ys gone : List Line)
    → Ready i p
    → length gone ≡ (open_at i p).deleted
    → patch (open_at i p).start (diff_loop table i j p xs ys) (gone ++ xs)
      ≡ (open_at i p).inserted ++ ys
unfolding diff_loop patch
diff_loop-patch table i j p [] [] gone r e = flush-patch i p [] gone [] r e
diff_loop-patch table i j p [] (y ∷ ys) gone r e =
    patch_open (insert_lines (y ∷ ys) (open_at i p)) [] gone [] e ∙ append-nil _
diff_loop-patch table i j p (x ∷ xs) [] gone r e =
    let h : Hunk = delete_lines (length (x ∷ xs)) (open_at i p) in
    subst (λ t. patch h.start (h ∷ []) t ≡ h.inserted ++ []) (append-nil (gone ++ x ∷ xs))
      (patch_open h [] (gone ++ x ∷ xs) [] (omega (arith, length-append gone (x ∷ xs))))
diff_loop-patch table i j p (x ∷ xs) (y ∷ ys) gone r e = elim (Bool-cases (text_eq x y)) [
  | inl same ↦
      let rest : List Hunk = diff_loop table (suc i) (suc j) none xs ys in
      let w : InOrder (suc i) (suc i + length xs) rest =
        diff_loop-InOrder table (suc i) (suc j) (suc i) (suc i + length xs) none xs ys tt
          (omega arith) refl in
      let ih : patch (suc i) rest xs ≡ ys =
        diff_loop-patch table (suc i) (suc j) none xs ys [] tt refl in
      rw (step_same table i j p x y xs ys same) (
        flush-patch i p rest gone (x ∷ xs) r e
        ∙ ap (◌++◌ (open_at i p).inserted) (
            patch-cons i (suc i + length xs) rest x xs w ∙ ap₂ (◌∷◌) ((text_eq_iff x y).0 same) ih))
  | inr differ ↦ elim (Bool-cases (leb (cell table i (suc j)) (cell table (suc i) j))) [
    | inl down ↦
        let h : Hunk = delete_lines 1 (open_at i p) in
        rw (step_down table i j p x y xs ys differ down) (
          subst
            (λ t.
              patch h.start (diff_loop table (suc i) j (some h) xs (y ∷ ys)) t
              ≡ h.inserted ++ y ∷ ys)
            (append_assoc gone (x ∷ []) xs)
            (diff_loop-patch table (suc i) j (some h) xs (y ∷ ys) (gone ++ x ∷ [])
              (Ready-delete_one i p r) (omega (arith, length-append gone (x ∷ [])))))
    | inr right ↦
        let h : Hunk = insert_lines (y ∷ []) (open_at i p) in
        rw (step_right table i j p x y xs ys differ right) (
          diff_loop-patch table i (suc j) (some h) (x ∷ xs) ys gone (Ready-insert i y [] p r) e
          ∙ append_assoc (open_at i p).inserted (y ∷ []) ys)
  ]
]

-- The diff of two texts is well formed in the coordinates of the first.
pub diff_lines-InOrder : (base other : List Line) → InOrder 0 (length base) (diff_lines base other)
unfolding diff_lines
diff_lines-InOrder base other =
    diff_loop-InOrder _ 0 0 0 (length base) none base other tt (omega arith) (omega arith)

-- Applying the hunks of the diff to the base gives the other text.
pub patch-diff_lines : (base other : List Line) → patch 0 (diff_lines base other) base ≡ other
unfolding diff_lines
patch-diff_lines base other = diff_loop-patch _ 0 0 none base other [] tt refl

diff_loop_self :
    (table : List (List ℕ)) (i j : ℕ) (xs : List Line) → diff_loop table i j none xs xs ≡ []
unfolding diff_loop
diff_loop_self table i j [] = refl
diff_loop_self table i j (x ∷ xs) =
    rw (step_same table i j none x x xs xs (text_eq_refl x))
      (diff_loop_self table (suc i) (suc j) xs)

-- A text does not differ from itself.
pub diff_lines_self : (base : List Line) → diff_lines base base ≡ []
unfolding diff_lines
diff_lines_self base = diff_loop_self _ 0 0 base
