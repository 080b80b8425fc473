-- ===== src/Concord/Provenance.antt =====
-- apps/server/src/concord/provenance.ts: which Agent last changed each line. An instant is a number
-- of milliseconds; `uuid n` is the n-th value that `randomUUID` returns.
pub mod Alignment
pub mod Responsible
mod Examples
use please_hire_me.Prelude.{
  ℕ, zero, suc, ◌+◌, ◌-◌, max, min, Bool, true, false, ◌&&◌, Option, none, some, List, [], ◌∷◌,
  ◌++◌, map, if◌then◌else◌, ltb, ◌==◌, length, get_elem?, get_or, any, Text, text_eq, truthy,
}
use please_hire_me.Concord.Merge.{Line, Hunk, split_lines, diff_lines}

pub record LineProvenance : Type 0 where
  pub line_id : Text
  pub last_modified_by_agent_id : Option Text
  pub last_modified_by_human_id : Option Text
  pub contribution_id : Option Text
  pub resulting_document_version : ℕ
  pub updated_at : ℕ

pub record Caret : Type 0 where
  pub line : ℕ
  pub column : ℕ

pub record ProvenanceInput : Type 0 where
  pub previous : List LineProvenance
  pub previous_content : Text
  pub next_content : Text
  pub agent_id : Option Text
  pub human_id : Option Text
  pub contribution_id : Text
  pub version : ℕ
  pub at : ℕ

pub record ProvenanceUpdate : Type 0 where
  pub lines : List LineProvenance
  pub changed_line_ids : List Text
  pub caret : Option Caret

-- `violated` is the exception, with the two lengths of its message.
pub data ProvenanceResult : Type 0 where
  updated : ProvenanceUpdate → ProvenanceResult
  violated : ℕ → ℕ → ProvenanceResult

abbrev pub nobody : Text → ℕ → ℕ → LineProvenance
nobody id version at = record {
  line_id = id;
  last_modified_by_agent_id = none;
  last_modified_by_human_id = none;
  contribution_id = none;
  resulting_document_version = version;
  updated_at = at;
}

-- The lines of `seedProvenance`, with identities from the n-th on.
unfoldable pub seed_lines : (ℕ → Text) → ℕ → List Line → ℕ → ℕ → List LineProvenance
seed_lines uuid n [] version at = []
seed_lines uuid n (x ∷ xs) version at =
    nobody (uuid n) version at ∷ seed_lines uuid (suc n) xs version at

unfoldable pub seed_provenance : (ℕ → Text) → ℕ → Text → ℕ → ℕ → List LineProvenance
unfolding seed_lines
seed_provenance uuid n content version at = seed_lines uuid n (split_lines content) version at

-- `endColumnOf`: the loop has `rounds` left of `limit - shared`.
unfoldable pub shared_end : ℕ → Text → Text → ℕ → ℕ
shared_end zero replaced inserted shared = shared
shared_end (suc rounds) replaced inserted shared =
    let more = shared_end rounds replaced inserted (suc shared) in
    if get_or replaced (length replaced - 1 - shared) 0
      == get_or inserted (length inserted - 1 - shared) 0
    then more
    else shared

unfoldable pub end_column_of : Option Text → Text → ℕ
unfolding shared_end
end_column_of none inserted = length inserted + 1
end_column_of (some replaced) inserted =
    if text_eq replaced inserted
    then length inserted + 1
    else length inserted
      - shared_end (min (length replaced) (length inserted)) replaced inserted 0
      + 1

-- The variables of the loop, and how many identities have been drawn.
pub record Build : Type 0 where
  pub lines : List LineProvenance
  pub changed : List Text
  pub caret : Option Caret
  pub cursor : ℕ
  pub drawn : ℕ

module _ (uuid : ℕ → Text) (input : ProvenanceInput) where
  -- `carry`, at the entry that stands there or at a gap.
  abbrev pub carry : ℕ → ℕ → LineProvenance
  carry index drawn = elim (get_elem? input.previous index) [
    | some entry ↦ entry
    | none ↦ nobody (uuid drawn) input.version input.at
  ]

  abbrev pub draws : ℕ → ℕ
  draws index = elim (get_elem? input.previous index) [ some entry ↦ 0 | none ↦ 1 ]

  abbrev pub attribute : ℕ → LineProvenance
  attribute drawn = record {
    line_id = uuid drawn;
    last_modified_by_agent_id = input.agent_id;
    last_modified_by_human_id = truthy input.human_id;
    contribution_id = some input.contribution_id;
    resulting_document_version = input.version;
    updated_at = input.at;
  }

  -- `for (; cursor < end; cursor += 1) lines.push(carry(cursor))`, in `rounds` rounds.
  unfoldable pub carry_lines : ℕ → Build → Build
  carry_lines zero b = b
  carry_lines (suc rounds) b = carry_lines rounds (record b {
    lines = b.lines ++ carry b.cursor b.drawn ∷ [];
    cursor = suc b.cursor;
    drawn = b.drawn + draws b.cursor;
  })

  unfoldable pub attribute_lines : List Line → Build → Build
  attribute_lines [] b = b
  attribute_lines (l ∷ ls) b = attribute_lines ls (record b {
    lines = b.lines ++ attribute b.drawn ∷ [];
    changed = b.changed ++ uuid b.drawn ∷ [];
    drawn = suc b.drawn;
  })

  -- The line that the hunk replaces, if it deletes any.
  abbrev pub replaced_line : List Line → Hunk → Option Line
  replaced_line old h = if ltb 0 h.deleted then get_elem? old h.start else none

  abbrev pub move_caret : List Line → Hunk → Build → Build
  move_caret old h b =
      if ltb 0 (length h.inserted)
      then record b {
        caret = some (record {
          line = length b.lines;
          column =
              end_column_of (replaced_line old h) (get_or h.inserted (length h.inserted - 1) []);
        });
      }
      else if ltb 0 h.deleted
      then record b { caret = some (record { line = max 1 (length b.lines); column = 1 }) }
      else b

  -- One round of the loop over the hunks.
  unfoldable pub apply_hunk : List Line → Hunk → Build → Build
  unfolding carry_lines attribute_lines
  apply_hunk old h b =
      let kept = carry_lines (h.start - b.cursor) b in
      let skipped = record kept { cursor = kept.cursor + h.deleted } in
      move_caret old h (attribute_lines h.inserted skipped)

  unfoldable pub apply_hunks : List Line → List Hunk → Build → Build
  unfolding apply_hunk
  apply_hunks old [] b = carry_lines (length old - b.cursor) b
  apply_hunks old (h ∷ hs) b = apply_hunks old hs (apply_hunk old h b)

  abbrev pub start_build : ℕ → Build
  start_build drawn = record { lines = []; changed = []; caret = none; cursor = 0; drawn = drawn }

  unfoldable pub reconcile_provenance : ℕ → ProvenanceResult
  unfolding apply_hunks
  reconcile_provenance drawn =
      let old = split_lines input.previous_content in
      let new = split_lines input.next_content in
      let b = apply_hunks old (diff_lines old new) (start_build drawn) in
      if length b.lines == length new
      then updated (record { lines = b.lines; changed_line_ids = b.changed; caret = b.caret })
      else violated (length b.lines) (length new)

pub record ResponsibleAgents : Type 0 where
  pub recommended_agent_id : Option Text
  pub candidate_agent_ids : List Text
  pub ambiguous : Bool

-- `lines[line - 1]?.lastModifiedByAgentId`; nothing stands at line 0.
abbrev pub agent_at : List LineProvenance → ℕ → Option Text
agent_at lines zero = none
agent_at lines (suc k) = elim (get_elem? lines k) [
  | none ↦ none
  | some entry ↦ truthy entry.last_modified_by_agent_id
]

-- `found.add(agent)`.
unfoldable pub add_agent : Option Text → List Text → List Text
add_agent none found = found
add_agent (some a) found = if any (text_eq a) found then found else found ++ a ∷ []

unfoldable pub collect_agents : List LineProvenance → ℕ → ℕ → List Text → List Text
unfolding add_agent
collect_agents lines zero line found = found
collect_agents lines (suc rounds) line found =
    collect_agents lines rounds (suc line) (add_agent (agent_at lines line) found)

unfoldable pub responsible_agents : List LineProvenance → ℕ → ℕ → ResponsibleAgents
unfolding collect_agents
responsible_agents lines start_line end_line =
    let found = collect_agents lines (end_line + 1 - start_line) start_line [] in
    record {
      recommended_agent_id = (if length found == 1 then get_elem? found 0 else none);
      candidate_agent_ids = found;
      ambiguous = ltb 1 (length found);
    }
