-- ===== src/Concord/Merge/Ascending.antt =====
-- Splicing hunks from the last to the first is patching with them from the first to the last.
use please_hire_me.Prelude.{
  ℕ, suc, ◌+◌, ◌-◌, ◌≤◌, ◌<◌, All, All-append, ◌≡◌, refl, sym, ap, ◌∙◌, List, [], ◌∷◌, ◌++◌, arith,
  length, take, drop, take-take_le, drop-take, drop-drop, append_assoc, length-take_le,
}
use please_hire_me.Concord.Merge.{Line, Hunk, splice_all}
use please_hire_me.Concord.Merge.Patch.{patch}
use please_hire_me.Concord.Merge.Splices.{Descends, splice_all-cons}

-- The hunks stand in order from `i` on, and none reaches into the next.
abbrev pub Ascends : ℕ → List Hunk → ℕ → Type 0
Ascends i [] n = i ≤ n
Ascends i (h ∷ hs) n = (i ≤ h.start) × Ascends (h.start + h.deleted) hs n

abbrev pub ascending : List Hunk → List Hunk
ascending [] = []
ascending (h ∷ hs) = ascending hs ++ h ∷ []

pub Ascends-le : (i n : ℕ) (hs : List Hunk) → Ascends i hs n → i ≤ n
Ascends-le i n [] a = a
Ascends-le i n (h ∷ hs) a = let t = Ascends-le (h.start + h.deleted) n hs a.1 in omega (arith, a.0)

-- The last hunk of a patch, applied behind the others.
patch-append :
    (i : ℕ) (hs : List Hunk) (h : Hunk) (lines : List Line)
    → Ascends i hs h.start
    → patch i (hs ++ h ∷ []) lines
      ≡ patch i hs (take (h.start - i) lines)
        ++ (h.inserted ++ drop (h.start + h.deleted - i) lines)
unfolding patch
patch-append i [] h lines a =
    let e : h.start - i + h.deleted ≡ h.start + h.deleted - i = omega arith in rw e refl
patch-append i (k ∷ ks) h lines a =
    let j = k.start + k.deleted in
    let le = Ascends-le j h.start ks a.1 in
    let m = k.start - i + k.deleted in
    let front : take (k.start - i) (take (h.start - i) lines) ≡ take (k.start - i) lines =
      take-take_le (k.start - i) (h.start - i) lines (omega arith) in
    let width : h.start - i - m ≡ h.start - j = omega arith in
    let middle : drop m (take (h.start - i) lines) ≡ take (h.start - j) (drop m lines) =
      drop-take m (h.start - i) lines (omega arith) ∙ ap (λ n. take n (drop m lines)) width in
    let place : m + (h.start + h.deleted - j) ≡ h.start + h.deleted - i = omega arith in
    let back : drop (h.start + h.deleted - j) (drop m lines)
        ≡ drop (h.start + h.deleted - i) lines =
      drop-drop (h.start + h.deleted - j) m lines ∙ ap (λ n. drop n lines) place in
    let rest = patch-append j ks h (drop m lines) a.1 in
    let tail' : List Line = h.inserted ++ drop (h.start + h.deleted - i) lines in
    let whole : patch j (ks ++ h ∷ []) (drop m lines)
        ≡ patch j ks (drop m (take (h.start - i) lines)) ++ tail' =
      rest
      ∙ ap (λ t. patch j ks (take (h.start - j) (drop m lines)) ++ (h.inserted ++ t)) back
      ∙ ap (λ t. patch j ks t ++ tail') (sym middle) in
    let inner : List Line = patch j ks (drop m (take (h.start - i) lines)) in
    ap (λ t. take (k.start - i) lines ++ (k.inserted ++ t)) whole
    ∙ ap (◌++◌ (take (k.start - i) lines)) (sym (append_assoc k.inserted inner tail'))
    ∙ sym (append_assoc (take (k.start - i) lines) (k.inserted ++ inner) tail')
    ∙ ap (λ t. (t ++ (k.inserted ++ inner)) ++ tail') (sym front)

Ascends-append :
    (i n : ℕ) (hs : List Hunk) (h : Hunk)
    → Ascends i hs h.start
    → h.start + h.deleted ≤ n
    → Ascends i (hs ++ h ∷ []) n
Ascends-append i n [] h a w = (a, w)
Ascends-append i n (k ∷ ks) h a w = (a.0, Ascends-append (k.start + k.deleted) n ks h a.1 w)

pub ascending-Ascends : (n : ℕ) (hs : List Hunk) → Descends n hs → Ascends 0 (ascending hs) n
ascending-Ascends n [] d = omega arith
ascending-Ascends n (h ∷ hs) d =
    Ascends-append 0 n (ascending hs) h (ascending-Ascends h.start hs d.1) d.0

-- Splicing from right to left is patching from left to right.
pub splice_all-patch :
    (hs : List Hunk) (lines : List Line)
    → Descends (length lines) hs
    → splice_all hs lines ≡ patch 0 (ascending hs) lines
unfolding splice_all patch
splice_all-patch [] lines d = refl
splice_all-patch (h ∷ hs) lines d =
    let len : length (take h.start lines) ≡ h.start =
      length-take_le h.start lines (omega (arith, d.0)) in
    let rest = splice_all-patch hs (take h.start lines) (rw len d.1) in
    let last = patch-append 0 (ascending hs) h lines (ascending-Ascends h.start hs d.1) in
    let a0 : h.start - 0 ≡ h.start = omega arith in
    let b0 : h.start + h.deleted - 0 ≡ h.start + h.deleted = omega arith in
    splice_all-cons h hs lines d
    ∙ ap (λ t. t ++ (h.inserted ++ drop (h.start + h.deleted) lines)) rest
    ∙ sym (rw (a0, b0) at last)

-- Each hunk starts behind the start of the one before it.
abbrev pub Climbs : ℕ → List Hunk → Type 0
Climbs i [] = Unit {0}
Climbs i (h ∷ hs) = (i ≤ h.start) × Climbs (suc h.start) hs

abbrev pub Falls : ℕ → List Hunk → Type 0
Falls n [] = Unit {0}
Falls n (h ∷ hs) = (h.start < n) × Falls h.start hs

Climbs-append :
    (i : ℕ) (hs : List Hunk) (h : Hunk)
    → Climbs i hs
    → All (λ k. k.start < h.start) hs
    → i ≤ h.start
    → Climbs i (hs ++ h ∷ [])
Climbs-append i [] h c a w = (w, tt)
Climbs-append i (k ∷ ks) h c a w = (c.0, Climbs-append (suc k.start) ks h c.1 a.1 a.0)

Falls-All : (n : ℕ) (hs : List Hunk) → Falls n hs → All (λ k. k.start < n) (ascending hs)
Falls-All n [] f = tt
Falls-All n (h ∷ hs) f =
    All-append (λ k. k.start < n) (ascending hs) (h ∷ [])
      (Falls-All n hs (Falls-weaken h.start n hs (omega (arith, f.0)) f.1)) (f.0, tt)
  where
    Falls-weaken : (m n : ℕ) (hs : List Hunk) → m ≤ n → Falls m hs → Falls n hs
    Falls-weaken m n [] w f = tt
    Falls-weaken m n (h ∷ hs) w f = (omega (arith, f.0), f.1)

pub Falls-Climbs : (n : ℕ) (hs : List Hunk) → Falls n hs → Climbs 0 (ascending hs)
Falls-Climbs n [] f = tt
Falls-Climbs n (h ∷ hs) f =
    Climbs-append 0 (ascending hs) h (Falls-Climbs h.start hs f.1) (Falls-All h.start hs f.1)
      (omega arith)
