-- ===== src/Concord/Sections/Bounds.antt =====
-- A write that passes the check changes nothing outside its section.
use please_hire_me.Prelude.{
  ℕ, suc, ◌+◌, ◌-◌, ◌≤◌, ◌≡◌, sym, ap, ap₂, ◌∙◌, none, List, [], ◌∷◌, ◌++◌, arith, length, take,
  drop, append_assoc, Text, All, take-append-drop, drop-drop, take-split,
}
use please_hire_me.Concord.Merge.{Line, Hunk, split_lines, diff_lines}
use please_hire_me.Concord.Merge.Patch.{patch, InOrder, InOrder-weaken}
use please_hire_me.Concord.Merge.Diff.{diff_lines-InOrder, patch-diff_lines}
use please_hire_me.Concord.Sections.{
  SectionRange, hunk_violation, first_violation, find_out_of_bounds,
}

-- A hunk lies between two indices.
abbrev Within : ℕ → ℕ → Hunk → Type 0
Within s e h = (s ≤ h.start) × (h.start + h.deleted ≤ e)

hunk_violation-Within :
    (range : SectionRange) (h : Hunk)
    → hunk_violation range h ≡ none
    → Within (range.start_line - 1) range.end_line h
unfolding hunk_violation
hunk_violation-Within range h e = ground arith

first_violation-Within :
    (range : SectionRange) (hs : List Hunk)
    → first_violation range hs ≡ none
    → All (Within (range.start_line - 1) range.end_line) hs
unfolding first_violation
first_violation-Within range [] e = tt
first_violation-Within range (h ∷ hs) e =
    ground (arith, hunk_violation-Within range h, first_violation-Within range hs)

-- Hunks that end before `e` leave the lines from `e` on as they were.
patch-suffix :
    (i n e : ℕ) (hs : List Hunk) (base : List Line)
    → i ≤ e
    → InOrder i n hs
    → All (λ h. h.start + h.deleted ≤ e) hs
    → (mid : List Line) × (patch i hs base ≡ mid ++ drop (e - i) base)
unfolding patch
patch-suffix i n e [] base m w a = (take (e - i) base, sym (take-append-drop (e - i) base))
patch-suffix i n e (h ∷ hs) base m w a =
    let next : ℕ = h.start + h.deleted in
    let skip : ℕ = h.start - i + h.deleted in
    let front : List Line = take (h.start - i) base in
    let (mid, q) =
      patch-suffix next n e hs (drop skip base) a.0
        (InOrder-weaken {i = suc next} {k = next} n hs (omega arith) w.3) a.1 in
    let same : drop (e - next) (drop skip base) ≡ drop (e - i) base =
      let k : skip + (e - next) ≡ e - i = omega (arith, w.0) in
      drop-drop (e - next) skip base ∙ ap (λ t. drop t base) k in
    (
      front ++ (h.inserted ++ mid),
      ap (λ t. front ++ (h.inserted ++ t)) (q ∙ ap (◌++◌ mid) same)
          ∙ ap (◌++◌ front) (sym (append_assoc h.inserted mid (drop (e - i) base)))
          ∙ sym (append_assoc front (h.inserted ++ mid) (drop (e - i) base)),
    )

All-end : (s e : ℕ) (hs : List Hunk) → All (Within s e) hs → All (λ h. h.start + h.deleted ≤ e) hs
All-end s e [] a = tt
All-end s e (h ∷ hs) a = (a.0.1, All-end s e hs a.1)

-- Hunks within `[s, e]` leave the lines before `s` and from `e` on as they were.
patch-Within :
    (s n e : ℕ) (hs : List Hunk) (base : List Line)
    → s ≤ e
    → InOrder 0 n hs
    → All (Within s e) hs
    → (mid : List Line) × (patch 0 hs base ≡ take s base ++ (mid ++ drop e base))
unfolding patch
patch-Within s n e [] base m w a =
    let k : s + (e - s) ≡ e = omega arith in
    let back : drop (e - s) (drop s base) ≡ drop e base =
      drop-drop (e - s) s base ∙ ap (λ t. drop t base) k in
    let mid : List Line = take (e - s) (drop s base) in
    (
      mid,
      sym (take-append-drop s base)
          ∙ ap (◌++◌ (take s base))
              (sym (take-append-drop (e - s) (drop s base)) ∙ ap (◌++◌ mid) back),
    )
patch-Within s n e (h ∷ hs) base m w a =
    let next : ℕ = h.start + h.deleted in
    let skip : ℕ = h.start - 0 + h.deleted in
    let mid' : List Line = take (h.start - 0 - s) (drop s base) in
    let (mid, q) =
      patch-suffix next n e hs (drop skip base) a.0.1
        (InOrder-weaken {i = suc next} {k = next} n hs (omega arith) w.3) (All-end s e hs a.1) in
    let k : skip + (e - next) ≡ e = omega (arith, a.0) in
    let back : drop (e - next) (drop skip base) ≡ drop e base =
      drop-drop (e - next) skip base ∙ ap (λ t. drop t base) k in
    (
      mid' ++ (h.inserted ++ mid),
      ap₂ (◌++◌) (take-split s (h.start - 0) base (omega (arith, a.0)))
            (ap (◌++◌ h.inserted) (q ∙ ap (◌++◌ mid) back))
          ∙ append_assoc (take s base) mid' (h.inserted ++ (mid ++ drop e base))
          ∙ ap (λ t. take s base ++ (mid' ++ t)) (sym (append_assoc h.inserted mid (drop e base)))
          ∙ ap (◌++◌ (take s base)) (sym (append_assoc mid' (h.inserted ++ mid) (drop e base))),
    )

-- If the check finds no violation, the new text is the old one with only the lines of the section
-- replaced, for any range that ends no earlier than it starts.
pub find_out_of_bounds-frame :
    (previous next : Text) (range : SectionRange)
    → range.start_line ≤ range.end_line
    → find_out_of_bounds previous next range ≡ none
    → (mid : List Line) × (split_lines next
        ≡ take (range.start_line - 1) (split_lines previous)
          ++ (mid ++ drop range.end_line (split_lines previous)))
unfolding find_out_of_bounds
find_out_of_bounds-frame previous next range h e =
    let before : List Line = split_lines previous in
    let hs : List Hunk = diff_lines before (split_lines next) in
    let (mid, q) =
      patch-Within (range.start_line - 1) (length before) range.end_line hs before (omega arith)
        (diff_lines-InOrder before (split_lines next)) (first_violation-Within range hs e) in
    (mid, sym (patch-diff_lines before (split_lines next)) ∙ q)
