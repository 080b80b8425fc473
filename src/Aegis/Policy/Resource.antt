-- ===== src/Aegis/Policy/Resource.antt =====
-- apps/server/src/aegis/policy/resource.ts: the forms of resources and what the rules ask of them.
-- `toLowerCase` is an argument.
use mathlib.Core.List.{reverse}
use please_hire_me.Prelude.{
  ℕ, ◌+◌, ◌-◌, ◌*◌, Bool, true, false, not, ◌&&◌, ◌||◌, Option, none, some, List, [], ◌∷◌, ◌++◌,
  if◌then◌else◌, ltb, leb, ◌==◌, length, take, drop, any, Text, codes, text_eq, starts_with,
  ends_with, includes, split_on, join_with,
}

abbrev slash : ℕ
slash = b'/'

abbrev pub file_prefix : Text
file_prefix = codes "file:"

abbrev pub net_prefix : Text
net_prefix = codes "net:"

-- One part of a path, against the parts before it, the last one first; `above` lets `..` stay.
abbrev pub place_part : Bool → Text → List Text → List Text
place_part above part [] =
    if text_eq part [] || text_eq part (codes ".")
    then []
    else if text_eq part (codes "..") && not above
    then []
    else part ∷ []
place_part above part (last ∷ before) =
    if text_eq part [] || text_eq part (codes ".")
    then last ∷ before
    else if text_eq part (codes "..") && not (text_eq last (codes ".."))
    then before
    else part ∷ last ∷ before

unfoldable pub place_parts : Bool → List Text → List Text → List Text
place_parts above [] placed = placed
place_parts above (p ∷ ps) placed = place_parts above ps (place_part above p placed)

-- `path.posix.normalize`.
unfoldable pub normalize : Text → Text
unfolding place_parts
normalize [] = codes "."
normalize (c ∷ s) =
    let absolute = c == slash in
    let trailing = ends_with slash (c ∷ s) in
    let parts = reverse (place_parts (not absolute) (split_on slash (c ∷ s)) []) in
    let body = join_with slash parts in
    let closed = if trailing && ltb 0 (length body) then body ++ slash ∷ [] else body in
    if absolute
    then slash ∷ closed
    else if length body == 0
    then (if trailing then codes "./" else codes ".")
    else closed

-- `input.replace(/\\/g, "/")`.
unfoldable pub forward_slashes : Text → Text
forward_slashes [] = []
forward_slashes (c ∷ s) = (if c == b'\\' then slash else c) ∷ forward_slashes s

unfoldable pub canonical : Text → Text
unfolding forward_slashes normalize
canonical input =
    let normalised = normalize (forward_slashes input) in
    if ltb 1 (length normalised) && ends_with slash normalised
    then take (length normalised - 1) normalised
    else normalised

unfoldable pub path_of : Text → Option Text
unfolding canonical
path_of resource =
    if starts_with file_prefix resource
    then some (canonical (drop (length file_prefix) resource))
    else none

-- What stands before the last colon, if there is one.
unfoldable pub before_last : ℕ → Text → Option Text
before_last c [] = none
before_last c (d ∷ s) = elim (before_last c s) [
  | some t ↦ some (d ∷ t)
  | none ↦ if d == c then some [] else none
]

abbrev pub or_whole : Option Text → Text → Text
or_whole none s = s
or_whole (some t) s = t

unfoldable pub host_of : (Text → Text) → Text → Option Text
unfolding before_last
host_of to_lower resource =
    if not (starts_with net_prefix resource)
    then none
    else let rest = drop (length net_prefix) resource in
      some (to_lower (or_whole (before_last b':' rest) rest))

unfoldable pub is_inside : Text → Text → Bool
unfolding canonical
is_inside parent child =
    let p = canonical parent in
    let c = canonical child in
    text_eq c p || starts_with (if ends_with slash p then p else p ++ slash ∷ []) c

-- A first octet with the range of the second; `none` for any second octet.
abbrev pub private_v4 : List (ℕ × Option (ℕ × ℕ))
private_v4 =
    (10, none)
    ∷ (127, none)
    ∷ (172, some (16, 31))
    ∷ (192, some (168, 168))
    ∷ (169, some (254, 254))
    ∷ (100, some (64, 127))
    ∷ (0, none)
    ∷ []

abbrev pub is_digit : ℕ → Bool
is_digit c = leb b'0' c && leb c b'9'

unfoldable pub all_digits : Text → Bool
all_digits [] = true
all_digits (c ∷ s) = is_digit c && all_digits s

unfoldable pub octet_value : Text → ℕ → ℕ
octet_value [] n = n
octet_value (c ∷ s) n = octet_value s (n * 10 + (c - b'0'))

-- `/^\d{1,3}$/`, and at most 255.
unfoldable pub octet_of : Text → Option ℕ
unfolding all_digits octet_value
octet_of part =
    if ltb 0 (length part) && leb (length part) 3 && all_digits part
    then (if ltb 255 (octet_value part 0) then none else some (octet_value part 0))
    else none

unfoldable pub octets_of : List Text → Option (List ℕ)
unfolding octet_of
octets_of [] = some []
octets_of (p ∷ ps) = elim (octet_of p) [
  | none ↦ none
  | some n ↦ elim (octets_of ps) [ none ↦ none | some ns ↦ some (n ∷ ns) ]
]

unfoldable pub parse_v4 : Text → Option (List ℕ)
unfolding octets_of
parse_v4 host =
    let parts = split_on b'.' host in if not (length parts == 4) then none else octets_of parts

abbrev pub in_range : ℕ → Option (ℕ × ℕ) → Bool
in_range second none = true
in_range second (some (lo, hi)) = leb lo second && leb second hi

unfoldable pub in_private_range : ℕ → ℕ → Bool
in_private_range first second =
    any (λ (range : ℕ × Option (ℕ × ℕ)). first == range.0 && in_range second range.1) private_v4

abbrev pub is_private_v4 : Option (List ℕ) → Bool
is_private_v4 (some (first ∷ second ∷ others)) = in_private_range first second
is_private_v4 _ = false

-- `replace(/^\[|\]$/g, "")`.
abbrev pub drop_bracket : ℕ → Text → Text
drop_bracket bracket [] = []
drop_bracket bracket (c ∷ s) = if c == bracket then s else c ∷ s

unfoldable pub is_private_or_link_local : (Text → Text) → Text → Bool
unfolding in_private_range parse_v4 includes
is_private_or_link_local to_lower host =
    let name = reverse (drop_bracket b']' (reverse (drop_bracket b'[' (to_lower host)))) in
    if text_eq name (codes "localhost") || starts_with (reverse (codes ".localhost")) (reverse name)
    then true
    else if text_eq name (codes "metadata") || starts_with (codes "metadata.") name
    then true
    else if text_eq name (codes "::1") || text_eq name (codes "::")
    then true
    else if starts_with (codes "fe80:") name
        || starts_with (codes "fc") name
        || starts_with (codes "fd") name
    then includes (codes ":") name
    else is_private_v4 (parse_v4 name)
