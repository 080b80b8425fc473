-- ===== src/Review/Runs/Planning.antt =====
-- Which comments a planned run holds.
use please_hire_me.Prelude.{
  ℕ, ◌≤◌, ◌<◌, ◌≡◌, refl, sym, ap, subst, ◌∙◌, ◌⊎◌, ◌≢◌, inl, inr, Bool, true, false, not, none,
  some, List, [], ◌∷◌, arith, length, any, Bool-cases, Option-cases, if◌then◌else◌, ◌==◌, Text,
  text_eq, text_eq_iff, Assoc, lookup, values, In, All, Entries, lookup-Entries, Distinct,
  values-All, lookup-In_values,
}
use please_hire_me.Concord.Store.State.{Store}
use please_hire_me.Review.Types.{ReviewComment, CommentStatus, resolved}
use please_hire_me.Review.State.{
  Result, ok, err, ok_inj, comment_missing, get, Review, other_reviewer, already_resolved,
  stale_comment,
}
use please_hire_me.Review.Comments.{is_anchor_intact, mark_stale}
use please_hire_me.Review.Runs.Grouping.{
  HasNoColon, Member, IsGroup, add_to_group-Entries, add_to_group-Distinct, IsPlanned,
  add_to_group-IsPlanned, add_to_group-keeps,
}
use please_hire_me.Review.Runs.{
  PlannedRun, run_key, add_to_group, is_resolved, may_dispatch, group_comments, plan_runs,
  max_comments_per_run, is_too_large, check_sizes,
}

-- The three tests of a round all pass where it goes on.
tests_passed :
    {A : Type 0} (entitled done intact : Bool) (s s' : Review) (x : Text) (rest : Review × Result A)
    {t : Review} {out : A}
    → (if not entitled
        then (s, err other_reviewer)
        else if done
        then (s, err already_resolved)
        else if not intact
        then (s', err (stale_comment x))
        else rest)
      ≡ (t, ok out)
    → (entitled ≡ true) × (done ≡ false) × (intact ≡ true) × (rest ≡ (t, ok out))
tests_passed false done intact s s' x rest e = cc
tests_passed true true intact s s' x rest e = cc
tests_passed true false false s s' x rest e = cc
tests_passed true false true s s' x rest e = (refl, refl, refl, e)

-- What holds of every outcome of a round.
pub tests_keep :
    {A : Type 0} (Q : Review × Result A → Type 0) (entitled done intact : Bool) (s s' : Review)
    (x : Text) (rest : Review × Result A)
    → Q (s, err other_reviewer)
    → Q (s, err already_resolved)
    → Q (s', err (stale_comment x))
    → Q rest
    → Q (
        if not entitled
        then (s, err other_reviewer)
        else if done
        then (s, err already_resolved)
        else if not intact
        then (s', err (stale_comment x))
        else rest)
tests_keep Q false done intact s s' x rest a b c d = a
tests_keep Q true true intact s s' x rest a b c d = b
tests_keep Q true false false s s' x rest a b c d = c
tests_keep Q true false true s s' x rest a b c d = d

check_sizes-ok :
    (p : Review × Result (Assoc PlannedRun)) (t : Review) (runs : List PlannedRun)
    → check_sizes p ≡ (t, ok runs)
    → (out : Assoc PlannedRun) × (p ≡ (t, ok out))
      × (runs ≡ values out)
      × (any is_too_large (values out) ≡ false)
check_sizes-ok (s, err x) t runs e = cc
check_sizes-ok (s, ok out) t runs e = elim (Bool-cases (any is_too_large (values out))) [
  | inl large ↦ cc (rw large at e)
  | inr small ↦ let e' = rw small at e in (out, cc, cc, small)
]

-- No two runs are for the same document and Agent.
abbrev pub IsOnePer : List PlannedRun → Type 0
IsOnePer [] = Unit
IsOnePer (g ∷ gs) =
    All (λ h. ¬ ((h.doc_id ≡ g.doc_id) × (h.agent_id ≡ g.agent_id))) gs × IsOnePer gs

apart :
    (P : ReviewComment → Type 0) (k : Text) (g : PlannedRun) (m : Assoc PlannedRun)
    → IsGroup P k g
    → Entries (IsGroup P) m
    → lookup k m ≡ none
    → All (λ h. ¬ ((h.doc_id ≡ g.doc_id) × (h.agent_id ≡ g.agent_id))) (values m)
unfolding lookup
apart P k g [] ig h new = _
apart P k g ((j, x) ∷ m) ig (ix, h) new = elim (Bool-cases (text_eq j k)) [
  | inl same ↦ cc (rw same at new)
  | inr other ↦ (
    λ both.
        let keys : j ≡ k = ix.keyed ∙ (rw (both.0, both.1) (sym ig.keyed)) in
        cc (sym other ∙ (text_eq_iff j k).1 keys),
    apart P k g m ig h (rw other at new),
  )
]

values-IsOnePer :
    (P : ReviewComment → Type 0) (m : Assoc PlannedRun)
    → Entries (IsGroup P) m
    → Distinct m
    → IsOnePer (values m)
values-IsOnePer P [] h d = _
values-IsOnePer P ((k, g) ∷ m) (ig, h) (new, d) = (apart P k g m ig h new, values-IsOnePer P m h d)

small_enough :
    (runs : List PlannedRun)
    → any is_too_large runs ≡ false
    → All (λ g. length g.comments ≤ max_comments_per_run) runs
small_enough [] e = _
small_enough (g ∷ gs) e = (ground arith, small_enough gs (ground arith))

module _ (uuid : ℕ → Text) (hash : Text → Text) (docs : Store) (now : ℕ) (human_id : Text)
    (owns_agent : Text → Bool) where
  -- What the tests of the loop say of a comment.
  pub record Dispatchable (c : ReviewComment) : Type 0 where
    pub entitled :
        (c.created_by_human_id ≡ human_id)
        ⊎ ((c.created_by_agent_id ≢ none) × (owns_agent c.responsible_agent_id ≡ true))
    pub unresolved : c.status ≢ resolved
    pub intact : is_anchor_intact hash docs c ≡ true

  may_dispatch_lem :
      (c : ReviewComment)
      → may_dispatch human_id owns_agent c ≡ true
      → (c.created_by_human_id ≡ human_id)
        ⊎ ((c.created_by_agent_id ≢ none) × (owns_agent c.responsible_agent_id ≡ true))
  unfolding may_dispatch
  may_dispatch_lem c e = elim (Bool-cases (text_eq c.created_by_human_id human_id)) [
    | inl own ↦ inl ((text_eq_iff _ _).0 own)
    | inr other ↦ inr (λ gone. ground arith, ground arith)
  ]

  is_resolved_lem : (status : CommentStatus) → is_resolved status ≡ false → status ≢ resolved
  is_resolved_lem status e f = cc (ap is_resolved f)

  -- One round of the loop, on an id that is unknown and on one that is known.
  pub group_comments-missing :
      (id : Text) (ids : List Text) (groups : Assoc PlannedRun) (s : Review)
      → lookup id s.comments ≡ none
      → group_comments uuid hash docs now human_id owns_agent (id ∷ ids) groups s
        ≡ (s, err comment_missing)
  unfolding group_comments get
  group_comments-missing id ids groups s f = rw (f, group_comments) refl

  pub group_comments-found :
      (id : Text) (ids : List Text) (groups : Assoc PlannedRun) (s : Review) (c : ReviewComment)
      → lookup id s.comments ≡ some c
      → group_comments uuid hash docs now human_id owns_agent (id ∷ ids) groups s ≡ (
          if not (may_dispatch human_id owns_agent c)
          then (s, err other_reviewer)
          else if is_resolved c.status
          then (s, err already_resolved)
          else if not (is_anchor_intact hash docs c)
          then ((mark_stale uuid now c s).0, err (stale_comment c.id))
          else group_comments uuid hash docs now human_id owns_agent ids (add_to_group c groups) s)
  unfolding group_comments get
  group_comments-found id ids groups s c f = rw (f, group_comments) refl

  pub group_comments-step :
      (id : Text) (ids : List Text) (groups : Assoc PlannedRun) (s t : Review)
      (out : Assoc PlannedRun)
      → group_comments uuid hash docs now human_id owns_agent (id ∷ ids) groups s ≡ (t, ok out)
      → (c : ReviewComment) × (lookup id s.comments ≡ some c)
        × Dispatchable c
        × (group_comments uuid hash docs now human_id owns_agent ids (add_to_group c groups) s
            ≡ (t, ok out))
  group_comments-step id ids groups s t out e = elim (Option-cases (lookup id s.comments)) [
    | inl f ↦ cc (group_comments-missing id ids groups s f)
    | inr (c, f) ↦
        let passed =
          tests_passed (may_dispatch human_id owns_agent c) (is_resolved c.status)
            (is_anchor_intact hash docs c) _ _ _ _
            (sym (group_comments-found id ids groups s c f) ∙ e) in
        (
          c,
          f,
          record {
            entitled = may_dispatch_lem c passed.0;
            unresolved = is_resolved_lem c.status passed.1;
            intact = passed.2;
          },
          passed.3,
        )
  ]

  -- A comment that the selection names, in the state in which the runs are planned.
  abbrev pub Selected : List Text → Review → ReviewComment → Type 0
  Selected ids s c = (id : Text) × In id ids × (lookup id s.comments ≡ some c) × Dispatchable c

  record Grouped (all : List Text) (ids : List Text) (groups : Assoc PlannedRun) (s t : Review)
      (out : Assoc PlannedRun) : Type 0 where
    same : t ≡ s
    entries : Entries (IsGroup (Selected all s)) out
    distinct : Distinct out
    keeps : (c : ReviewComment) → IsPlanned groups c → IsPlanned out c
    complete :
        All (λ id. (c : ReviewComment) × (lookup id s.comments ≡ some c) × IsPlanned out c) ids

  group_comments-Grouped :
      (all : List Text) (s : Review)
      → Entries (λ k c. HasNoColon c.responsible_agent_id) s.comments
      → (ids : List Text) (groups : Assoc PlannedRun) (t : Review) (out : Assoc PlannedRun)
      → ((id : Text) → In id ids → In id all)
      → Entries (IsGroup (Selected all s)) groups
      → Distinct groups
      → group_comments uuid hash docs now human_id owns_agent ids groups s ≡ (t, ok out)
      → Grouped all ids groups s t out
  unfolding group_comments
  group_comments-Grouped all s clean [] groups t out sub h d e =
      let done : groups ≡ out = ok_inj (ap (λ (p : Review × Result (Assoc PlannedRun)). p.1) e) in
      record {
        same = ap (λ (p : Review × Result (Assoc PlannedRun)). p.0) (sym e);
        entries = subst (λ g. Entries (IsGroup (Selected all s)) g) done h;
        distinct = subst (λ g. Distinct g) done d;
        keeps = λ c p. subst (λ g. IsPlanned g c) done p;
        complete = _;
      }
  group_comments-Grouped all s clean (id ∷ ids) groups t out sub h d e =
      let (c, f, good, rest) = group_comments-step id ids groups s t out e in
      let here : Selected all s c = (id, sub id (inl refl), f, good) in
      let bare =
        lookup-Entries (λ k x. HasNoColon x.responsible_agent_id) id c s.comments clean f in
      let ih =
        group_comments-Grouped all s clean ids (add_to_group c groups) t out (λ i m. sub i (inr m))
          (add_to_group-Entries (Selected all s) c groups here bare h)
          (add_to_group-Distinct c groups d) rest in
      record {
        same = ih.same;
        entries = ih.entries;
        distinct = ih.distinct;
        keeps = λ x p. ih.keeps x (add_to_group-keeps c x groups p);
        complete = ((c, f, ih.keeps c (add_to_group-IsPlanned c groups)), ih.complete);
      }

  in_values :
      (s : Review) (ids : List Text) (out : Assoc PlannedRun)
      → All (λ id. (c : ReviewComment) × (lookup id s.comments ≡ some c) × IsPlanned out c) ids
      → All
          (λ id.
            (c : ReviewComment) × (lookup id s.comments ≡ some c)
            × ((g : PlannedRun) × In g (values out) × In c g.comments))
          ids
  in_values s [] out _ = _
  in_values s (id ∷ ids) out ((c, f, (g, e, m)), h) =
      ((c, f, (g, lookup-In_values (run_key c) g out e, m)), in_values s ids out h)

  -- What a plan for a selection is.
  pub record IsPlan (ids : List Text) (s : Review) (runs : List PlannedRun) : Type 0 where
    pub members :
        All (λ g. (0 < length g.comments) × All (Member (Selected ids s) g) g.comments) runs
    pub sizes : All (λ g. length g.comments ≤ max_comments_per_run) runs
    pub one_per : IsOnePer runs
    pub complete :
        All
          (λ id.
            (c : ReviewComment) × (lookup id s.comments ≡ some c)
            × ((g : PlannedRun) × In g runs × In c g.comments))
          ids

  pub plan_runs-check_sizes :
      (id : Text) (ids : List Text) (s : Review)
      → plan_runs uuid hash docs now human_id owns_agent (id ∷ ids) s
        ≡ check_sizes (group_comments uuid hash docs now human_id owns_agent (id ∷ ids) [] s)
  unfolding plan_runs
  plan_runs-check_sizes id ids s =
      let some_id : (length (id ∷ ids) == 0) ≡ false = ground arith in rw some_id refl

  -- A plan that `planRuns` returns leaves the state as it is. Each run holds from one to ten
  -- comments, all of its document and for its Agent; each was selected, is not resolved, has an
  -- intact anchor and may be dispatched by this human: it is the human's own, or an Agent raised it
  -- and the human owns the Agent that is asked. No two runs are for the same document and Agent, and
  -- every selected comment is in a run. This is for responsible Agents whose identifiers have no colon.
  pub plan_runs-IsPlan :
      (ids : List Text) (s t : Review) (runs : List PlannedRun)
      → Entries (λ k c. HasNoColon c.responsible_agent_id) s.comments
      → plan_runs uuid hash docs now human_id owns_agent ids s ≡ (t, ok runs)
      → (t ≡ s) × IsPlan ids s runs
  unfolding plan_runs
  plan_runs-IsPlan [] s t runs clean e = cc
  plan_runs-IsPlan (id ∷ ids) s t runs clean e =
      let all = id ∷ ids in
      let (out, made, is, small) =
        check_sizes-ok (group_comments uuid hash docs now human_id owns_agent all [] s) t runs
          (sym (plan_runs-check_sizes id ids s) ∙ e) in
      let h = group_comments-Grouped all s clean all [] t out (λ i m. m) _ _ made in
      (
        h.same,
        subst (λ r. IsPlan all s r) (sym is)
            (record {
              members =
                  values-All (IsGroup (Selected all s))
                    (λ g. (0 < length g.comments) × All (Member (Selected all s) g) g.comments)
                    (λ k g i. (i.nonempty, i.members)) out h.entries;
              sizes = small_enough (values out) small;
              one_per = values-IsOnePer (Selected all s) out h.entries h.distinct;
              complete = in_values s all out h.complete;
            }),
      )
