-- ===== src/Warrant/Plane/Approvals.antt =====
-- No subtask stands as approved or integrated without the approval of its owner, however the
-- operations of the plane follow one another.
use please_hire_me.Prelude.{
  ℕ, ◌+◌, ◌<◌, ◌≡◌, refl, sym, ap, ◌⊎◌, inl, inr, Bool, true, false, Option, some, List, [], ◌∷◌,
  map, arith, length, ltb→lt, ◌==◌, keep_if, Bool-cases, both_true, Option-cases, Text, text_eq,
  text_eq_iff, Assoc, lookup, values, All, Entries, lookup-Entries, insert-Entries, values-All,
}
use please_hire_me.Warrant.Registry.{resolve_session}
use please_hire_me.Warrant.Policy.{Decision, allow, authorize}
use please_hire_me.Warrant.Policy.Decides.{authorize_iff}
use please_hire_me.Warrant.Tasks.{SubtaskState, Subtask, SubtaskProposal}
use please_hire_me.Warrant.ModelPolicy.{ModelTiers}
use please_hire_me.Warrant.Orchestrator.{
  PlanInput, Orchestrator, orchestrator_id, assign, assign_all, plan, set_state, approve,
  is_submitted, is_pending, subtasks_of, pending_approvals, all_approved, integrate_all,
}
use please_hire_me.Warrant.Plane.{check, task_asked, is_human, is_allowed, integration, request_of}

pub record IsApproved (k : Text) (s : Subtask) : Type 0 where
  pub keyed : k ≡ s.id
  pub by_owner : (is_pending s.state ≡ true) ⊎ (s.approved_by ≡ some s.owner_id)

abbrev pub AreApproved : Orchestrator → Type 0
AreApproved o = Entries IsApproved o.subtasks

assign_all-AreApproved :
    (uuid : ℕ → Text) (to_lower : Text → Text) (tiers : ModelTiers) (now : ℕ) (input : PlanInput)
    (task_id : Text) (ps : List SubtaskProposal) (index : ℕ) (taken : List Text) (o : Orchestrator)
    → AreApproved o
    → AreApproved (assign_all uuid to_lower tiers now input task_id ps index taken o).0
unfolding assign_all assign
assign_all-AreApproved uuid to_lower tiers now input task_id [] index taken o h = h
assign_all-AreApproved uuid to_lower tiers now input task_id (p ∷ ps) index taken o h =
    assign_all-AreApproved uuid to_lower tiers now input task_id ps (index + 1) _
      (assign uuid to_lower tiers now input task_id index taken p o).0
      (insert-Entries IsApproved _ _ o.subtasks (record { keyed = refl; by_owner = inl refl }) h)

pub plan-AreApproved :
    (uuid : ℕ → Text) (to_lower : Text → Text) (tiers : ModelTiers) (now : ℕ)
    (split : Text → ℕ → List SubtaskProposal) (input : PlanInput) (o : Orchestrator)
    → AreApproved o
    → AreApproved (plan uuid to_lower tiers now split input o).0
unfolding plan
plan-AreApproved uuid to_lower tiers now split input o h =
    elim (Bool-cases (length input.owners == 0)) [
      | inl nobody ↦ rw nobody h
      | inr somebody ↦ rw somebody (
          assign_all-AreApproved uuid to_lower tiers now input _ _ 0 []
            (record o { drawn = o.drawn + 1 }) h)
    ]

pub set_state-AreApproved :
    (now : ℕ) (id : Text) (state : SubtaskState) (o : Orchestrator)
    → is_pending state ≡ true
    → AreApproved o
    → AreApproved (set_state now id state o).0
unfolding set_state
set_state-AreApproved now id state o p h = elim (Option-cases (lookup id o.subtasks)) [
  | inl e ↦ rw (e, set_state) h
  | inr (s, e) ↦
      rw (e, set_state)
        (insert-Entries IsApproved id _ o.subtasks
          (record {
            keyed = (lookup-Entries IsApproved id s o.subtasks h e).keyed;
            by_owner = inl p;
          })
          h)
]

pub approve-AreApproved :
    (now : ℕ) (id human : Text) (o : Orchestrator)
    → AreApproved o
    → AreApproved (approve now id human o).0
unfolding approve
approve-AreApproved now id human o h = elim (Option-cases (lookup id o.subtasks)) [
  | inl e ↦ rw (e, approve) h
  | inr (s, e) ↦ elim (Bool-cases (text_eq s.owner_id human)) [
    | inr other ↦ rw (e, approve) (rw other h)
    | inl own ↦ elim (Bool-cases (is_submitted s.state)) [
      | inr early ↦ rw (e, approve) (rw (own, early) h)
      | inl ready ↦
          rw (e, approve)
            (rw (own, ready)
              (insert-Entries IsApproved id _ o.subtasks
                (record {
                  keyed = (lookup-Entries IsApproved id s o.subtasks h e).keyed;
                  by_owner =
                      inr (ap {B = Option Text} some (sym ((text_eq_iff s.owner_id human).0 own)));
                })
                h))
    ]
  ]
]

is_allowed_lem : (d : Decision) → is_allowed d ≡ true → d ≡ allow
is_allowed_lem Decision.allow e = refl
is_allowed_lem Decision.deny e = cc

none_pending :
    (ss : List Subtask)
    → (length (map (λ (s : Subtask). s.id) (keep_if (λ (s : Subtask). is_pending s.state) ss)) == 0)
      ≡ true
    → All (λ s. is_pending s.state ≡ false) ss
none_pending [] e = _
none_pending (s ∷ ss) e = elim (Bool-cases (is_pending s.state)) [
  | inl waiting ↦ absurd (ground arith)
  | inr done ↦ (done, none_pending ss (rw done at e))
]

-- A subtask that counts as approved when its task is integrated.
abbrev pub Ready : Subtask → Type 0
Ready s = IsApproved s.id s × (is_pending s.state ≡ false)

pub integrate_all-Entries :
    (now : ℕ) (ss : List Subtask) (m : Assoc Subtask)
    → All Ready ss
    → Entries IsApproved m
    → Entries IsApproved (integrate_all now ss m)
unfolding integrate_all
integrate_all-Entries now [] m _ h = h
integrate_all-Entries now (s ∷ ss) m ((a, done), all) h = integrate_all-Entries now ss _ all (
    insert-Entries IsApproved s.id _ m
      (record {
        keyed = refl;
        by_owner = elim a.by_owner [ inl waiting ↦ cc | inr owner ↦ inr owner ];
      })
      h)

both-All :
    {A : Type 0} (P Q : A → Type 0) (test : A → Bool) (xs : List A)
    → All P xs
    → All Q (keep_if test xs)
    → All (λ a. P a × Q a) (keep_if test xs)
both-All P Q test [] _ _ = _
both-All P Q test (x ∷ xs) (p, h) k = elim (Bool-cases (test x)) [
  | inl kept ↦ let k' = rw kept at k in rw kept ((p, k'.0), both-All P Q test xs h k'.1)
  | inr gone ↦ rw gone (both-All P Q test xs h (rw gone at k))
]

own_key : (k : Text) (s : Subtask) → IsApproved k s → IsApproved s.id s
own_key k s a = record { keyed = refl; by_owner = a.by_owner }

-- What the policy asks before an integration.
pub allowed-all_approved :
    (now : ℕ) (token : Option Text) (id : Text) (o : Orchestrator)
    → is_allowed (check now (integration token id) o).decision ≡ true
    → (is_human (resolve_session token o.registry) orchestrator_id ≡ true)
      × (all_approved id o ≡ true)
unfolding check request_of task_asked
allowed-all_approved now token [] o e =
    let request = request_of now (integration token []) o in
    elim ((authorize_iff request).0 (is_allowed_lem (authorize request).decision e)) [
      | inl (same, integrates) ↦ cc integrates.2
      | inr (other, permitted) ↦ absurd (other refl)
    ]
allowed-all_approved now token (c ∷ id) o e =
    let request = request_of now (integration token (c ∷ id)) o in
    elim ((authorize_iff request).0 (is_allowed_lem (authorize request).decision e)) [
      | inl (same, integrates) ↦ (integrates.0, integrates.2)
      | inr (other, permitted) ↦ absurd (other refl)
    ]

pub all_approved-Ready :
    (task_id : Text) (o : Orchestrator)
    → AreApproved o
    → all_approved task_id o ≡ true
    → (0 < length (subtasks_of task_id o)) × All Ready (subtasks_of task_id o)
unfolding all_approved pending_approvals subtasks_of
all_approved-Ready task_id o h e =
    let ss = values o.subtasks in
    let (some_there, none_left) = both_true _ _ e in
    (
      ltb→lt _ _ some_there,
      both-All (λ s. IsApproved s.id s) (λ s. is_pending s.state ≡ false)
          (λ (s : Subtask). text_eq s.task_id task_id) ss
          (values-All IsApproved (λ s. IsApproved s.id s) own_key o.subtasks h)
          (none_pending _ none_left),
    )
