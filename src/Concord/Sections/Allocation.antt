-- ===== src/Concord/Sections/Allocation.antt =====
-- The table of allocations.
use please_hire_me.Prelude.{
  ◌≡◌, ◌&&◌, none, some, arith, Bool-cases, if◌then◌else◌, inl, inr, Text, text_eq, text_eq_iff,
  trim, lookup, insert, lookup-insert, lookup-remove,
}
use please_hire_me.Concord.Sections.{SectionRegistry, on_doc, allocate, heading_for, release}

lookup-on_doc :
    (doc agent : Text) (r : SectionRegistry) → lookup agent (on_doc doc r) ≡ heading_for doc agent r
unfolding heading_for lookup
lookup-on_doc doc agent r = ground arith

-- An allocation is the Agent's own on that document, replaces the one before it, and touches no
-- other Agent and no other document.
pub heading_for-allocate :
    (doc agent doc' agent' heading : Text) (r : SectionRegistry)
    → heading_for doc' agent' (allocate doc agent heading r) ≡ (
        if text_eq doc doc' && text_eq agent agent'
        then some (trim heading)
        else heading_for doc' agent' r)
unfolding heading_for allocate
heading_for-allocate doc agent doc' agent' heading r = elim (Bool-cases (text_eq doc doc')) [
  | inl same ↦ ground (
    arith,
    text_eq_iff doc doc',
    lookup-insert doc doc' (insert agent (trim heading) (on_doc doc r)) r,
    lookup-insert agent agent' (trim heading) (on_doc doc r),
    lookup-on_doc doc agent' r,
  )
  | inr other ↦
      ground (arith, lookup-insert doc doc' (insert agent (trim heading) (on_doc doc r)) r)
]

-- A release forgets every allocation of one document and keeps the others.
pub heading_for-release :
    (doc doc' agent' : Text) (r : SectionRegistry)
    → heading_for doc' agent' (release doc r)
      ≡ (if text_eq doc doc' then none else heading_for doc' agent' r)
unfolding heading_for release
heading_for-release doc doc' agent' r = ground (arith, lookup-remove doc doc' r)
