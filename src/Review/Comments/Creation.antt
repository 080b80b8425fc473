-- ===== src/Review/Comments/Creation.antt =====
-- What a comment that was created is anchored to, and which Agent it is routed to.
use please_hire_me.Prelude.{
  ℕ, suc, ◌+◌, ◌-◌, ◌≤◌, ◌<◌, ◌≡◌, refl, sym, ap, ◌∙◌, take, drop, ◌++◌, append_assoc,
  take-append-drop, length-take_le, length-drop, take-take_le, subst, ◌⊎◌, ◌≢◌, inl, inr, ◌↔◌, Bool,
  true, false, not, Option, none, some, List, [], ◌∷◌, arith, ltb, leb, length, any, ltb→lt, leb→le,
  truthy, Text, text_eq, text_eq_iff, text_eq_refl, lookup, lookup-insert_self, trim, In,
}
use please_hire_me.Concord.Merge.{Line, split_lines, join_lines}
use please_hire_me.Concord.Provenance.{ResponsibleAgents, responsible_agents}
use please_hire_me.Concord.Provenance.{LineProvenance}
use please_hire_me.Concord.Provenance.Responsible.{
  Named, any-In, responsible_agents-candidates, responsible_agents-recommended, recommended-Named,
}
use please_hire_me.Concord.Store.State.{Store, SharedDoc}
use please_hire_me.Concord.Store.Views.{snapshot, provenance_of}
use please_hire_me.Review.Types.{ReviewComment, pending}
use please_hire_me.Review.State.{
  ReviewError, ok_inj, Result-cases, empty_body, body_too_long, document_missing, outside_document,
  own_lines, require, ok, err, value_of_chain, required, passed_in_chain, Review, append, get,
}
use please_hire_me.Review.Comments.{
  CreateCommentInput, Placed, place, checked_range, choose_agent, routing_of, is_agent, add_comment,
  create_comment, is_anchor_intact, slice_lines, max_body,
}

pub record IsPlaced (docs : Store) (input : CreateCommentInput) (p : Placed) : Type 0 where
  pub trimmed : p.body ≡ trim input.body
  pub nonempty : 0 < length p.body
  pub bounded : length p.body ≤ max_body
  pub found : lookup input.doc_id docs.docs ≡ some p.doc
  pub ranged : (1 ≤ p.start_line) × (p.start_line ≤ p.end_line)
  pub inside : p.end_line ≤ length (split_lines p.doc.content)
  pub routed :
      choose_agent input.target_agent_id (routing_of docs input.doc_id p.start_line p.end_line)
      ≡ ok p.chosen
  pub peer : is_agent (truthy input.agent_id) p.chosen ≡ false

checked_range_lem :
    (s e : Option ℕ) (count : ℕ) (r : ℕ × ℕ)
    → checked_range s e count ≡ some r
    → (1 ≤ r.0) × (r.0 ≤ r.1) × (r.1 ≤ count)
unfolding checked_range
checked_range_lem none e count r h = cc
checked_range_lem (some s) none count r h = cc
checked_range_lem (some s) (some e) count r h = ground arith

not_true→false : (b : Bool) → not b ≡ true → b ≡ false
not_true→false true e = cc
not_true→false false e = refl

pub place-IsPlaced :
    (docs : Store) (input : CreateCommentInput) (p : Placed)
    → place docs input ≡ ok p
    → IsPlaced docs input p
unfolding place snapshot
place-IsPlaced docs input p h =
    let body = trim input.body in
    let (long, h1) = passed_in_chain (ltb 0 (length body)) empty_body _ h in
    let (short, h2) = passed_in_chain (leb (length body) max_body) body_too_long _ h1 in
    let (doc, found, h3) =
      value_of_chain (require (lookup input.doc_id docs.docs) document_missing) _ h2 in
    let count = length (split_lines doc.content) in
    let (range, checked, h4) =
      value_of_chain
        (require (checked_range input.start_line input.end_line count) (outside_document count)) _
        h3 in
    let (chosen, routed, h5) =
      value_of_chain
        (choose_agent input.target_agent_id (routing_of docs input.doc_id range.0 range.1)) _ h4 in
    let (peer, h6) =
      passed_in_chain (not (is_agent (truthy input.agent_id) chosen)) own_lines _ h5 in
    subst (λ q. IsPlaced docs input q) (ok_inj h6)
      (record {
        trimmed = refl;
        nonempty = ltb→lt _ _ long;
        bounded = leb→le _ _ short;
        found = required _ _ found;
        ranged =
            let (low, order, high) =
              checked_range_lem input.start_line input.end_line count range
                (required _ _ checked) in
            (low, order);
        inside =
            let (low, order, high) =
              checked_range_lem input.start_line input.end_line count range
                (required _ _ checked) in
            high;
        routed = routed;
        peer = not_true→false _ peer;
      })

-- The lines from one number to another, the first line being 1, with those before and behind.
range_parts :
    (lines : List Line) (first last : ℕ)
    → 1 ≤ first
    → first ≤ last
    → last ≤ length lines
    → (lines ≡ take (first - 1) lines ++ (drop (first - 1) (take last lines) ++ drop last lines))
      × (suc (length (take (first - 1) lines)) ≡ first)
      × (length (take (first - 1) lines) + length (drop (first - 1) (take last lines)) ≡ last)
range_parts lines first last low order high =
    let k = first - 1 in
    let xs = take last lines in
    let front : take k xs ≡ take k lines = take-take_le k last lines (omega arith) in
    (
      sym (
          sym (append_assoc (take k lines) (drop k xs) (drop last lines))
          ∙ ap (λ t. (t ++ drop k xs) ++ drop last lines) (sym front)
          ∙ ap (λ t. t ++ drop last lines) (take-append-drop k xs)
          ∙ take-append-drop last lines),
      omega (arith, length-take_le k lines (omega arith)),
      omega (
        arith,
        length-take_le k lines (omega arith),
        length-drop k xs,
        length-take_le last lines high,
      ),
    )

-- What a comment that was created says of the document that it was created on.
pub record IsAnchored (hash : Text → Text) (docs : Store) (c : ReviewComment) : Type 0 where
  pub doc : SharedDoc
  pub found : lookup c.doc_id docs.docs ≡ some doc
  pub version : c.base_version ≡ doc.version
  pub ranged : (1 ≤ c.start_line) × (c.start_line ≤ c.end_line)
  pub inside : c.end_line ≤ length (split_lines doc.content)
  pub before : List Line
  pub chosen_lines : List Line
  pub after : List Line
  pub parts : split_lines doc.content ≡ before ++ (chosen_lines ++ after)
  pub starts : suc (length before) ≡ c.start_line
  pub ends : length before + length chosen_lines ≡ c.end_line
  pub text : c.selected_text ≡ join_lines chosen_lines
  pub hashed : c.selected_text_hash ≡ hash c.selected_text
  pub intact : is_anchor_intact hash docs c ≡ true

module _ (uuid : ℕ → Text) (hash : Text → Text) (now : ℕ) (docs : Store)
    (input : CreateCommentInput) where
  create_comment-err :
      (s : Review) (x : ReviewError)
      → place docs input ≡ err x
      → create_comment uuid hash now docs input s ≡ (s, err x)
  unfolding create_comment
  create_comment-err s x f = rw (f, create_comment) refl

  create_comment-ok :
      (s : Review) (p : Placed)
      → place docs input ≡ ok p
      → create_comment uuid hash now docs input s
        ≡ ((add_comment uuid hash now input p s).0, ok (add_comment uuid hash now input p s).1)
  unfolding create_comment
  create_comment-ok s p f = rw (f, create_comment) refl

  pub create_comment-inv :
      (s t : Review) (c : ReviewComment)
      → create_comment uuid hash now docs input s ≡ (t, ok c)
      → (p : Placed) × IsPlaced docs input p × (add_comment uuid hash now input p s ≡ (t, c))
  create_comment-inv s t c e = elim (Result-cases (place docs input)) [
    | inl (x, f) ↦ cc (create_comment-err s x f)
    | inr (p, f) ↦ (p, place-IsPlaced docs input p f, cc (create_comment-ok s p f))
  ]

-- The anchor of the lines of a document is intact on that document.
is_anchor_intact_self :
    (hash : Text → Text) (docs : Store) (c : ReviewComment) (doc : SharedDoc)
    → lookup c.doc_id docs.docs ≡ some doc
    → c.end_line ≤ length (split_lines doc.content)
    → c.selected_text_hash ≡ hash (slice_lines doc.content c.start_line c.end_line)
    → is_anchor_intact hash docs c ≡ true
unfolding is_anchor_intact snapshot
is_anchor_intact_self hash docs c doc found inside hashed =
    rw (found, is_anchor_intact)
      (ground (arith, text_eq_refl (hash (slice_lines doc.content c.start_line c.end_line))))

module _ (uuid : ℕ → Text) (hash : Text → Text) (now : ℕ) (docs : Store)
    (input : CreateCommentInput) where
  add_comment-IsAnchored :
      (s : Review) (p : Placed)
      → IsPlaced docs input p
      → IsAnchored hash docs (add_comment uuid hash now input p s).1
  unfolding add_comment
  add_comment-IsAnchored s p h =
      let lines = split_lines p.doc.content in
      let cut = range_parts lines p.start_line p.end_line h.ranged.0 h.ranged.1 h.inside in
      record {
        doc = p.doc;
        found = h.found;
        version = refl;
        ranged = h.ranged;
        inside = h.inside;
        before = take (p.start_line - 1) lines;
        chosen_lines = drop (p.start_line - 1) (take p.end_line lines);
        after = drop p.end_line lines;
        parts = cut.0;
        starts = cut.1;
        ends = cut.2;
        text = refl;
        hashed = refl;
        intact =
            is_anchor_intact_self hash docs (add_comment uuid hash now input p s).1 p.doc h.found
              h.inside refl;
      }

  add_comment-stored :
      (s : Review) (p : Placed)
      → let c = (add_comment uuid hash now input p s).1 in
        get c.id (add_comment uuid hash now input p s).0 ≡ ok c
  unfolding add_comment append get
  add_comment-stored s p =
      let c = (add_comment uuid hash now input p s).1 in
      rw (lookup-insert_self c.id c s.comments, get) refl

  -- A comment that `createComment` returns is stored and pending. Its text is the document's lines
  -- from the first to the last that it names, the first line being 1, as they are at this moment and
  -- under the document's version; its hash is that text's, and its anchor is intact.
  pub create_comment-IsAnchored :
      (s t : Review) (c : ReviewComment)
      → create_comment uuid hash now docs input s ≡ (t, ok c)
      → IsAnchored hash docs c × (get c.id t ≡ ok c) × (c.status ≡ pending)
  unfolding add_comment
  create_comment-IsAnchored s t c e =
      let (p, h, made) = create_comment-inv uuid hash now docs input s t c e in
      subst
        (λ (r : Review × ReviewComment).
          IsAnchored hash docs r.1 × (get r.1.id r.0 ≡ ok r.1) × (r.1.status ≡ pending))
        made (add_comment-IsAnchored s p h, add_comment-stored s p, refl)

-- The Agents that a range of a document's lines names.
abbrev pub Wrote : Store → ReviewComment → Text → Type 0
Wrote docs c a = Named (provenance_of c.doc_id docs) c.start_line c.end_line a

none_In : (xs : List Text) → ltb 0 (length xs) ≡ false → (a : Text) → ¬ In a xs
none_In [] e a m = m
none_In (x ∷ xs) e a m = absurd (ground arith)

not_is_agent : (o : Option Text) (a : Text) → is_agent o a ≡ false → o ≢ some a
not_is_agent none a e f = cc
not_is_agent (some b) a e f = ground (arith, text_eq_iff b a)

recommended-only :
    (lines : List LineProvenance) (first last : ℕ) (a : Text)
    → (responsible_agents lines first last).recommended_agent_id ≡ some a
    → (b : Text) → Named lines first last b ↔ (b ≡ a)
recommended-only lines first last a e b = (
  λ m. (responsible_agents-recommended lines first last a b e m).1,
  λ same. subst (λ x. Named lines first last x) (sym same) (recommended-Named lines first last a e),
)

choose_agent-cases :
    (target : Option Text) (r : ResponsibleAgents) (a : Text)
    → choose_agent target r ≡ ok a
    → ((target ≡ some a)
        × ((ltb 0 (length r.candidate_agent_ids) ≡ false)
            ⊎ (any (text_eq a) r.candidate_agent_ids ≡ true)))
      ⊎ (r.recommended_agent_id ≡ some a)
unfolding choose_agent
choose_agent-cases none r a e = inr (ground arith)
choose_agent-cases (some []) r a e = cc
choose_agent-cases (some (c ∷ t)) r a e = ground arith

-- An Agent that is chosen is named by the caller, or recommended; it wrote the lines, unless nobody did.
choose_agent_lem :
    (target : Option Text) (lines : List LineProvenance) (first last : ℕ) (a : Text)
    → choose_agent target (responsible_agents lines first last) ≡ ok a
    → ((target ≡ some a) ⊎ ((responsible_agents lines first last).recommended_agent_id ≡ some a))
      × (Named lines first last a ⊎ ((b : Text) → ¬ Named lines first last b))
choose_agent_lem target lines first last a e =
    let r = responsible_agents lines first last in
    let found = r.candidate_agent_ids in
    elim (choose_agent-cases target r a e) [
      | inl (same, inl none_found) ↦ (
        inl same,
        inr λ b m.
            none_In found none_found b ((responsible_agents-candidates lines first last b).1 m),
      )
      | inl (same, inr among) ↦ (
        inl same,
        inl ((responsible_agents-candidates lines first last a).0 (any-In a found among)),
      )
      | inr only ↦ (inr only, inl (recommended-Named lines first last a only))
    ]

module _ (uuid : ℕ → Text) (hash : Text → Text) (now : ℕ) (docs : Store)
    (input : CreateCommentInput) where
  -- A comment that `createComment` returns goes to the Agent that the caller names or, where one
  -- Agent alone wrote the lines, to that one. It wrote a line of the range, unless no Agent did, and
  -- it is not the Agent that raised the comment.
  pub create_comment-Routed :
      (s t : Review) (c : ReviewComment)
      → create_comment uuid hash now docs input s ≡ (t, ok c)
      → ((input.target_agent_id ≡ some c.responsible_agent_id)
          ⊎ ((b : Text) → Wrote docs c b ↔ (b ≡ c.responsible_agent_id)))
        × (Wrote docs c c.responsible_agent_id ⊎ ((b : Text) → ¬ Wrote docs c b))
        × (truthy c.created_by_agent_id ≢ some c.responsible_agent_id)
  unfolding add_comment
  create_comment-Routed s t c e =
      let (p, h, made) = create_comment-inv uuid hash now docs input s t c e in
      let lines = provenance_of input.doc_id docs in
      let (chosen, wrote) =
        choose_agent_lem input.target_agent_id lines p.start_line p.end_line p.chosen h.routed in
      subst
        (λ (r : Review × ReviewComment).
          ((input.target_agent_id ≡ some r.1.responsible_agent_id)
            ⊎ ((b : Text) → Wrote docs r.1 b ↔ (b ≡ r.1.responsible_agent_id)))
          × (Wrote docs r.1 r.1.responsible_agent_id ⊎ ((b : Text) → ¬ Wrote docs r.1 b))
          × (truthy r.1.created_by_agent_id ≢ some r.1.responsible_agent_id))
        made
        (
          elim chosen [
            | inl same ↦ inl same
            | inr only ↦ inr (recommended-only lines p.start_line p.end_line p.chosen only)
          ],
          wrote,
          not_is_agent (truthy input.agent_id) p.chosen h.peer,
        )
