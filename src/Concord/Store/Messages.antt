-- ===== src/Concord/Store/Messages.antt =====
-- The commit message of a history entry, and the slug of a conflict's identifier.
use please_hire_me.Prelude.{
  ℕ, ◌-◌, ◌≤◌, inl, inr, Bool, true, false, ◌&&◌, ◌||◌, [], ◌∷◌, ◌++◌, arith, if◌then◌else◌, ltb,
  leb, ltb→lt, not_ltb→le, Bool-cases, take, length, length-append, length-take_le, Text, is_space,
  trim,
}

abbrev pub max_message : ℕ
max_message = 200

-- `message.replace(/\s+/g, " ")`; the test says whether the unit before was white space.
unfoldable pub collapse_spaces : Bool → Text → Text
collapse_spaces in_run [] = []
collapse_spaces in_run (c ∷ s) =
    let rest = collapse_spaces (is_space c) s in
    if is_space c then (if in_run then rest else 32 ∷ rest) else c ∷ rest

-- "…" is one code unit.
unfoldable pub bounded_message : Text → Text
bounded_message message =
    let collapsed = trim (collapse_spaces false message) in
    if ltb max_message (length collapsed)
    then take (max_message - 1) collapsed ++ 0x2026 ∷ []
    else collapsed

abbrev pub is_alnum : ℕ → Bool
is_alnum c = (leb b'a' c && leb c b'z') || (leb b'A' c && leb c b'Z') || (leb b'0' c && leb c b'9')

-- `docId.replace(/[^a-zA-Z0-9]+/g, "-")`.
unfoldable pub slug_of : Bool → Text → Text
slug_of in_run [] = []
slug_of in_run (c ∷ s) =
    if is_alnum c
    then c ∷ slug_of false s
    else if in_run
    then slug_of true s
    else b'-' ∷ slug_of true s

-- A message in the log is never longer than the bound.
pub bounded_message-length : (message : Text) → length (bounded_message message) ≤ 200
unfolding bounded_message
bounded_message-length message =
    let collapsed : Text = trim (collapse_spaces false message) in
    elim (Bool-cases (ltb 200 (length collapsed))) [
      | inl long ↦
          let h = ltb→lt 200 (length collapsed) long in
          rw long (
            omega (
              arith,
              length-append (take 199 collapsed) (0x2026 ∷ []),
              length-take_le 199 collapsed,
            ))
      | inr short ↦ rw short (not_ltb→le 200 (length collapsed) short)
    ]
