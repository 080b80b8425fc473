-- ===== src/Concord/Sections/Ranges.antt =====
-- Where a section lies, and when two sections share no line.
use please_hire_me.Prelude.{
  ℕ, zero, suc, ◌+◌, ◌-◌, ◌≤◌, ◌<◌, ◌≡◌, refl, ap, ◌∙◌, inl, inr, true, some, List, [], ◌∷◌, arith,
  length, drop, get_elem?, get_or, Bool-cases, Option-cases, Text, trim, length-drop, text_eq,
  text_eq_iff,
}
use please_hire_me.Concord.Merge.{Line, split_lines}
use please_hire_me.Concord.Sections.{
  SectionRange, heading_level, find_heading, closes, section_end, range_at, locate_section,
}

find_heading-lt :
    (wanted : Text) (i k : ℕ) (xs : List Line)
    → find_heading wanted i xs ≡ some k
    → (i ≤ k) × (k < i + length xs) × (text_eq (trim (get_or xs (k - i) [])) wanted ≡ true)
unfolding find_heading
find_heading-lt wanted i k [] e = cc
find_heading-lt wanted i k (x ∷ xs) e = elim (Bool-cases (text_eq (trim x) wanted)) [
  | inl hit ↦
      let same : i ≡ k = ground arith in
      let z : k - i ≡ 0 = omega arith in (omega arith, omega arith, rw z hit)
  | inr miss ↦
      let (a, b, c) = find_heading-lt wanted (suc i) k xs (ground arith) in
      let z : k - i ≡ suc (k - suc i) = omega arith in (omega arith, omega arith, rw z c)
]

section_end_bounds :
    (level i : ℕ) (xs : List Line)
    → (i ≤ section_end level i xs) × (section_end level i xs ≤ i + length xs)
unfolding section_end
section_end_bounds level i [] = omega arith
section_end_bounds level i (x ∷ xs) = ground (arith, section_end_bounds level (suc i) xs)

-- A section ends before the first line behind its heading that closes it.
section_end-le :
    (level i k : ℕ) (xs : List Line) (l : Line)
    → get_elem? xs k ≡ some l
    → closes level (heading_level l) ≡ true
    → section_end level i xs ≤ i + k
unfolding section_end
section_end-le level i k [] l e c = cc
section_end-le level i zero (x ∷ xs) l e c =
    let same : x ≡ l = ground arith in
    let c' : closes level (heading_level x) ≡ true = rw same c in rw c' (omega arith)
section_end-le level i (suc k) (x ∷ xs) l e c =
    ground (arith, section_end-le level (suc i) k xs l e c)

get_elem?-drop : (n k : ℕ) (xs : List Line) → get_elem? (drop n xs) k ≡ get_elem? xs (n + k)
get_elem?-drop zero k xs = let e : k ≡ 0 + k = omega arith in ap (get_elem? xs) e
get_elem?-drop (suc n) k [] = refl
get_elem?-drop (suc n) k (x ∷ xs) =
    let e : suc n + k ≡ suc (n + k) = omega arith in rw e (get_elem?-drop n k xs)

get_elem?_of_lt : (k : ℕ) (xs : List Line) → k < length xs → get_elem? xs k ≡ some (get_or xs k [])
get_elem?_of_lt k [] h = elim h [ ]
get_elem?_of_lt zero (x ∷ xs) h = refl
get_elem?_of_lt (suc k) (x ∷ xs) h = get_elem?_of_lt k xs (omega arith)

located :
    (content heading : Text) (range : SectionRange)
    → locate_section content heading ≡ some range
    → (index : ℕ) × (find_heading (trim heading) 0 (split_lines content) ≡ some index)
      × (range ≡ range_at (split_lines content) index)
unfolding locate_section
located content heading range e =
    elim (Option-cases (find_heading (trim heading) 0 (split_lines content))) [
      | inl missing ↦ cc (rw (missing, locate_section) at e)
      | inr (index, found) ↦ (index, found, ground arith)
    ]

-- A section that is found starts at a line that is its heading but for white space at the ends,
-- ends no earlier than it starts, and lies within the text.
pub locate_section-bounds :
    (content heading : Text) (range : SectionRange)
    → locate_section content heading ≡ some range
    → (1 ≤ range.start_line)
      × (range.start_line ≤ range.end_line)
      × (range.end_line ≤ length (split_lines content))
      × (trim (get_or (split_lines content) (range.start_line - 1) []) ≡ trim heading)
locate_section-bounds content heading range e =
    let lines : List Line = split_lines content in
    let (index, found, same) = located content heading range e in
    let (_, small, hit) = find_heading-lt (trim heading) 0 index lines found in
    let level : ℕ = heading_level (get_or lines index []) in
    let (low, high) = section_end_bounds level (index + 1) (drop (index + 1) lines) in
    let s : range.start_line ≡ index + 1 = ap SectionRange.start_line same in
    let t : range.end_line ≡ section_end level (index + 1) (drop (index + 1) lines) =
      ap SectionRange.end_line same in
    let k : range.start_line - 1 ≡ index - 0 = omega arith in
    (
      omega arith,
      omega arith,
      omega (arith, length-drop (index + 1) lines),
      rw k ((text_eq_iff _ _).0 hit),
    )

-- Two sections of one text share no line if the later heading is of the same or of a higher level:
-- the first ends before the second starts.
pub locate_section-disjoint :
    (content first second : Text) (r s : SectionRange)
    → locate_section content first ≡ some r
    → locate_section content second ≡ some s
    → r.start_line < s.start_line
    → closes
        (heading_level (get_or (split_lines content) (r.start_line - 1) []))
        (heading_level (get_or (split_lines content) (s.start_line - 1) []))
      ≡ true
    → r.end_line < s.start_line
locate_section-disjoint content first second r s e f before c =
    let lines : List Line = split_lines content in
    let (i, _, same_r) = located content first r e in
    let (j, found, same_s) = located content second s f in
    let (_, small, _) = find_heading-lt (trim second) 0 j lines found in
    let a : r.start_line ≡ i + 1 = ap SectionRange.start_line same_r in
    let b : s.start_line ≡ j + 1 = ap SectionRange.start_line same_s in
    let p : r.start_line - 1 ≡ i = omega arith in
    let q : s.start_line - 1 ≡ j = omega arith in
    let level : ℕ = heading_level (get_or lines i []) in
    let t : r.end_line ≡ section_end level (i + 1) (drop (i + 1) lines) =
      ap SectionRange.end_line same_r in
    let gap : i + 1 + (j - (i + 1)) ≡ j = omega arith in
    let here : get_elem? (drop (i + 1) lines) (j - (i + 1)) ≡ some (get_or lines j []) =
      get_elem?-drop (i + 1) (j - (i + 1)) lines
      ∙ ap (get_elem? lines) gap
      ∙ get_elem?_of_lt j lines (omega arith) in
    omega (
      arith,
      section_end-le level (i + 1) (j - (i + 1)) (drop (i + 1) lines) (get_or lines j []) here
          (rw p at (rw q at c)),
    )
