-- ===== src/Concord/Store/Anchors.antt =====
-- Where `keepBoth` puts losing lines: behind the first run of the lines that won, or at the end.
use please_hire_me.Prelude.{
  ℕ, suc, ◌+◌, ◌≤◌, ◌≡◌, ◌≢◌, ◌↔◌, ◌⊎◌, refl, sym, ap, ap₂, ◌∙◌, both_true, inl, inr, true, false,
  none, some, length-append, take-append_le, take_all, take-append-drop, take, drop, text_eq,
  text_eq_iff, List, [], ◌∷◌, ◌++◌, arith, append_assoc, Bool-cases, Option-cases, length,
}
use please_hire_me.Concord.Merge.{Line, MergeConflict}
use please_hire_me.Concord.Store.KeepBoth.{begins_with, find_run_from, find_run, anchor_of}

begins_with-length : (xs ys : List Line) → begins_with xs ys ≡ true → length xs ≤ length ys
unfolding begins_with
begins_with-length [] ys e = omega arith
begins_with-length (x ∷ xs) [] e = cc
begins_with-length (x ∷ xs) (y ∷ ys) e = ground (arith, begins_with-length xs ys)

find_run_from-bound :
    (i k : ℕ) (needle hay : List Line)
    → find_run_from i needle hay ≡ some k
    → k + length needle ≤ i + length hay
unfolding find_run_from
find_run_from-bound i k needle [] e = cc
find_run_from-bound i k needle (y ∷ ys) e = elim (Bool-cases (begins_with needle (y ∷ ys))) [
  | inl h ↦
      let l = begins_with-length needle (y ∷ ys) h in
      let f : some i ≡ some k = rw h at e in ground arith
  | inr h ↦ let l = find_run_from-bound (suc i) k needle ys (rw h at e) in omega arith
]

find_run-bound :
    (k : ℕ) (lines needle : List Line)
    → find_run lines needle ≡ some k
    → k + length needle ≤ length lines
unfolding find_run
find_run-bound k lines [] e = cc
find_run-bound k lines (x ∷ xs) e = let h = find_run_from-bound 0 k (x ∷ xs) lines e in omega arith

pub anchor_of-bound : (lines : List Line) (c : MergeConflict) → anchor_of lines c ≤ length lines
unfolding find_run
anchor_of-bound lines c = elim (Option-cases (find_run lines c.theirs)) [
  | inl e ↦ rw (e, anchor_of) (omega arith)
  | inr (k, e) ↦ rw (e, anchor_of) (find_run-bound k lines c.theirs e)
]

-- The lines stand together behind `front`, and nowhere further forward.
abbrev pub FirstRun : List Line → List Line → List Line → Type 0
FirstRun needle lines front =
    ((post : List Line) × (lines ≡ front ++ (needle ++ post)))
    × ((pre : List Line) (post : List Line)
        → lines ≡ pre ++ (needle ++ post)
        → length front ≤ length pre)

-- The place behind which a range's losing lines go: the first run of the lines that won, or the end of
-- the text where there are none or they do not stand together any more.
abbrev pub WonAt : List Line → List Line → List Line → List Line → Type 0
WonAt needle lines front back =
    (lines ≡ front ++ back)
    × (((needle ≢ []) × ((pre : List Line) × ((front ≡ pre ++ needle) × FirstRun needle lines pre)))
        ⊎ (((needle ≡ [])
              ⊎ ((pre : List Line) (post : List Line) → lines ≢ pre ++ (needle ++ post)))
            × (back ≡ [])))

begins_with_iff :
    (needle hay : List Line)
    → (begins_with needle hay ≡ true) ↔ ((post : List Line) × (hay ≡ needle ++ post))
unfolding begins_with
begins_with_iff [] hay = (λ _. (hay, refl), λ _. refl)
begins_with_iff (x ∷ xs) [] = (λ e. cc, λ h. cc h.1)
begins_with_iff (x ∷ xs) (y ∷ ys) = (
  λ e.
      let (both, rest) = both_true (text_eq y x) (begins_with xs ys) e in
      let (post, p) = (begins_with_iff xs ys).0 rest in
      (post, ap₂ ◌∷◌ ((text_eq_iff y x).0 both) p),
  λ h. ground (arith, (begins_with_iff xs ys).1 (h.0, cc h.1), (text_eq_iff y x).1 (cc h.1)),
)

-- What the search finds is the first run, counted from `i`; what it does not find is not there.
find_run_from-some :
    (i k : ℕ) (needle hay : List Line)
    → find_run_from i needle hay ≡ some k
    → (front : List Line) × (i + length front ≡ k) × FirstRun needle hay front
unfolding find_run_from
find_run_from-some i k needle [] e = cc
find_run_from-some i k needle (y ∷ ys) e = elim (Bool-cases (begins_with needle (y ∷ ys))) [
  | inl h ↦
      let f : some i ≡ some k = rw h at e in
      ([], ground arith, ((begins_with_iff needle (y ∷ ys)).0 h, λ pre post p. omega arith))
  | inr h ↦
      let (front, n, (run, least)) = find_run_from-some (suc i) k needle ys (rw h at e) in
      (y ∷ front, omega arith, ((run.0, ap (◌∷◌ y) run.1), further y ys front least h))
]
  where
    further :
        (y : Line) (ys front : List Line)
        → ((pre : List Line) (post : List Line)
            → ys ≡ pre ++ (needle ++ post)
            → length front ≤ length pre)
        → begins_with needle (y ∷ ys) ≡ false
        → (pre : List Line) (post : List Line) → y ∷ ys ≡ pre ++ (needle ++ post)
        → length (y ∷ front) ≤ length pre
    further y ys front least h [] post p =
        let t = (begins_with_iff needle (y ∷ ys)).1 (post, p) in absurd (ground arith)
    further y ys front least h (x ∷ pre) post p = let l = least pre post (cc p) in omega arith

no_run : (needle : List Line) → needle ≢ [] → (pre post : List Line) → [] ≢ pre ++ (needle ++ post)
no_run [] n pre post p = n refl
no_run (x ∷ xs) n [] post p = cc p
no_run (x ∷ xs) n (y ∷ pre) post p = cc p

find_run_from-none :
    (i : ℕ) (needle hay : List Line)
    → needle ≢ []
    → find_run_from i needle hay ≡ none
    → (pre : List Line) (post : List Line) → hay ≢ pre ++ (needle ++ post)
unfolding find_run_from
find_run_from-none i needle [] n e pre post p = no_run needle n pre post p
find_run_from-none i needle (y ∷ ys) n e pre post p =
    elim (Bool-cases (begins_with needle (y ∷ ys))) [
      | inl h ↦ absurd (ground (arith, rw h at e))
      | inr h ↦
          elim pre as (λ q. y ∷ ys ≡ q ++ (needle ++ post) → ⊥) [
            | [] ↦
                λ p. let t = (begins_with_iff needle (y ∷ ys)).1 (post, p) in absurd (ground arith)
            | ◌∷◌ x q ↦ λ p. find_run_from-none (suc i) needle ys n (rw h at e) q post (cc p)
          ]
            p
    ]

find_run-none :
    (lines needle : List Line)
    → find_run lines needle ≡ none
    → (needle ≡ []) ⊎ ((pre : List Line) (post : List Line) → lines ≢ pre ++ (needle ++ post))
unfolding find_run
find_run-none lines [] e = inl refl
find_run-none lines (x ∷ xs) e = inr (find_run_from-none 0 (x ∷ xs) lines (λ f. cc f) e)

find_run-some :
    (lines needle : List Line) (k : ℕ)
    → find_run lines needle ≡ some k
    → (needle ≢ []) × ((front : List Line) × (length front ≡ k) × FirstRun needle lines front)
unfolding find_run
find_run-some lines [] k e = cc
find_run-some lines (x ∷ xs) k e =
    let (front, n, run) = find_run_from-some 0 k (x ∷ xs) lines e in
    (λ f. cc f, (front, omega arith, run))

take-length : (xs ys : List Line) → take (length xs) (xs ++ ys) ≡ xs
take-length xs ys =
    take-append_le (length xs) xs ys (omega arith) ∙ take_all (length xs) xs (omega arith)

drop-length : (xs : List Line) → drop (length xs) xs ≡ []
drop-length [] = refl
drop-length (x ∷ xs) = drop-length xs

pub anchor_of-WonAt :
    (lines : List Line) (c : MergeConflict)
    → WonAt c.theirs lines (take (anchor_of lines c) lines) (drop (anchor_of lines c) lines)
anchor_of-WonAt lines c = elim (Option-cases (find_run lines c.theirs)) [
  | inl e ↦
      rw (e, anchor_of)
        (
          sym (take-append-drop (length lines) lines),
          inr (find_run-none lines c.theirs e, drop-length lines),
        )
  | inr (k, e) ↦
      let (some_lines, (front, n, run)) = find_run-some lines c.theirs k e in
      let size : k + length c.theirs ≡ length (front ++ c.theirs) =
        omega (arith, length-append front c.theirs) in
      let all : lines ≡ (front ++ c.theirs) ++ run.0.0 =
        run.0.1 ∙ sym (append_assoc front c.theirs run.0.0) in
      rw (e, anchor_of)
        (
          sym (take-append-drop (k + length c.theirs) lines),
          inl (
            some_lines,
            (
              front,
              (
                ap (λ j. take j lines) size
                    ∙ ap (take (length (front ++ c.theirs))) all
                    ∙ take-length (front ++ c.theirs) run.0.0,
                run,
              ),
            ),
          ),
        )
]
