-- ===== src/Warrant/Binding/Bound.antt =====
-- What a run that is bound may do, and what its container can reach.
use please_hire_me.Prelude.{
  ℕ, ◌≡◌, ◌≢◌, refl, sym, ap, subst, inl, inr, true, not, ◌&&◌, Option, none, some, List, [], ◌∷◌,
  arith, map, keep_if, values, find?-In, both_true, In, In-keep_if, Bool-cases, Option-cases, Text,
  text_eq, text_eq_iff, ◌∙◌, Bool, find?, length,
}
use please_hire_me.Aegis.Isolation.{
  MountSpec, bind_mounts_in, is_workspace, strip_end, source_or_none, assert_workspace_isolation,
  IsolationEvidence, isolation_evidence,
}
use please_hire_me.Aegis.Isolation.Reach.{AtOrBeneath, IsIsolated, assert_workspace_isolation_iff}
use please_hire_me.Warrant.Types.{Warrant, WarrantScope, has_scope}
use please_hire_me.Warrant.Registry.{warrant_for_agent, is_live}
use please_hire_me.Warrant.Tasks.{Subtask}
use please_hire_me.Warrant.Orchestrator.{Orchestrator, subtask_by_agent, subtasks_of}
use please_hire_me.Warrant.Binding.{
  BoundRun, Workspaces, bind, bind_with, bound_run, verify_argv, siblings_of,
}

-- The subtask and the warrant that a bound run stands on.
pub record IsBound (workspaces : Workspaces) (o : Orchestrator) (now : ℕ) (agent_id : Text)
    (b : BoundRun) : Type 0 where
  pub subtask : Subtask
  pub warrant : Warrant
  pub stored : In subtask (values o.subtasks)
  pub assigned : subtask.agent_id ≡ agent_id
  pub delegated : In warrant (values o.registry.warrants)
  pub named : warrant.agent_id ≡ agent_id
  pub live : is_live now warrant ≡ true
  pub same_subtask : warrant.subtask_id ≡ subtask.id
  pub may_write : has_scope WarrantScope.workspace_write warrant.scopes ≡ true
  pub bound :
      bound_run workspaces o agent_id b.request.prompt b.request.thread_id subtask warrant ≡ b

apart : (s t : Text) → s ≢ t → not (text_eq s t) ≡ true
apart s t n = ground (arith, text_eq_iff s t)

bind_with-chosen :
    (workspaces : Workspaces) (o : Orchestrator) (agent_id prompt : Text) (thread_id : Option Text)
    (found : Option Subtask) (held : Option Warrant) (b : BoundRun)
    → bind_with workspaces o agent_id prompt thread_id found held ≡ inr b
    → (s : Subtask) × ((w : Warrant) × ((found ≡ some s)
          × ((held ≡ some w)
              × ((w.subtask_id ≡ s.id)
                  × ((has_scope WarrantScope.workspace_write w.scopes ≡ true)
                      × (bound_run workspaces o agent_id prompt thread_id s w ≡ b))))))
bind_with-chosen workspaces o agent_id prompt thread_id none held b e = absurd (ground arith)
bind_with-chosen workspaces o agent_id prompt thread_id (some s) none b e = absurd (ground arith)
bind_with-chosen workspaces o agent_id prompt thread_id (some s) (some w) b e =
    elim (Bool-cases (text_eq w.subtask_id s.id)) [
      | inl t ↦ elim (Bool-cases (has_scope WarrantScope.workspace_write w.scopes)) [
        | inl h ↦ (
          s,
          (
            w,
            (
              refl,
              (refl, ((text_eq_iff w.subtask_id s.id).0 t, (h, ground (arith, rw (t, h) at e)))),
            ),
          ),
        )
        | inr h ↦ absurd (ground (arith, rw (t, h) at e))
      ]
      | inr f ↦ absurd (ground (arith, rw f at e))
    ]

bind-IsBound :
    (workspaces : Workspaces) (o : Orchestrator) (now : ℕ) (agent_id prompt : Text)
    (thread_id : Option Text) (b : BoundRun)
    → bind workspaces o now agent_id prompt thread_id ≡ inr b
    → IsBound workspaces o now agent_id b
unfolding bind subtask_by_agent warrant_for_agent
bind-IsBound workspaces o now agent_id prompt thread_id b e =
    let (s, (w, (f, (g, (same, (h, run)))))) =
      bind_with-chosen workspaces o agent_id prompt thread_id (subtask_by_agent agent_id o)
        (warrant_for_agent now agent_id o.registry) b e in
    let s_in = find?-In (λ (u : Subtask). text_eq u.agent_id agent_id) (values o.subtasks) s f in
    let w_in =
      find?-In (λ (u : Warrant). text_eq u.agent_id agent_id && is_live now u)
        (values o.registry.warrants) w g in
    let both = both_true (text_eq w.agent_id agent_id) (is_live now w) w_in.1 in
    record {
      subtask = s;
      warrant = w;
      stored = s_in.0;
      assigned = (text_eq_iff s.agent_id agent_id).0 s_in.1;
      delegated = w_in.0;
      named = (text_eq_iff w.agent_id agent_id).0 both.0;
      live = both.1;
      same_subtask = same;
      may_write = h;
      bound =
          subst
            (λ (u : BoundRun).
              bound_run workspaces o agent_id u.request.prompt u.request.thread_id s w ≡ u)
            run refl;
    }

In-map : {A B : Type 0} (f : A → B) (xs : List A) (x : A) → In x xs → In (f x) (map f xs)
In-map f [] x m = elim m [ ]
In-map f (y ∷ ys) x (inl e) = inl (ap f e)
In-map f (y ∷ ys) x (inr m) = inr (In-map f ys x m)

-- Every other subtask of the task has a workspace among the siblings.
siblings_of-In :
    (workspaces : Workspaces) (o : Orchestrator) (s t : Subtask)
    → In t (values o.subtasks)
    → t.task_id ≡ s.task_id
    → t.id ≢ s.id
    → In
        (workspaces.path_for t.id)
        (siblings_of workspaces s.id (map (λ (u : Subtask). u.id) (subtasks_of s.task_id o)))
unfolding subtasks_of
siblings_of-In workspaces o s t m same other =
    let here =
      In-keep_if (λ (u : Subtask). text_eq u.task_id s.task_id) (values o.subtasks) t m
        ((text_eq_iff t.task_id s.task_id).1 same) in
    let named = In-map (λ (u : Subtask). u.id) (subtasks_of s.task_id o) t here in
    In-map workspaces.path_for
      (keep_if (λ (id : Text). not (text_eq id s.id))
        (map (λ (u : Subtask). u.id) (subtasks_of s.task_id o)))
      t.id
      (In-keep_if (λ (id : Text). not (text_eq id s.id))
        (map (λ (u : Subtask). u.id) (subtasks_of s.task_id o)) t.id named (apart t.id s.id other))

verify_argv-IsIsolated :
    (b : BoundRun) (args : List Text) (evidence : IsolationEvidence)
    → verify_argv b args ≡ inr evidence
    → IsIsolated b.isolation (bind_mounts_in args)
unfolding verify_argv
verify_argv-IsIsolated b args evidence e =
    elim (Option-cases (assert_workspace_isolation args b.isolation)) [
      | inl n ↦ (assert_workspace_isolation_iff args b.isolation).0 n
      | inr (x, f) ↦ absurd (ground (arith, rw (f, verify_argv) at e))
    ]

verify_argv-evidence :
    (b : BoundRun) (args : List Text) (evidence : IsolationEvidence)
    → verify_argv b args ≡ inr evidence
    → isolation_evidence args ≡ evidence
unfolding verify_argv
verify_argv-evidence b args evidence e =
    elim (Option-cases (assert_workspace_isolation args b.isolation)) [
      | inl n ↦ ground (arith, rw (n, verify_argv) at e)
      | inr (x, f) ↦ absurd (ground (arith, rw (f, verify_argv) at e))
    ]

find?-keep_if :
    (p : MountSpec → Bool) (ms : List MountSpec) (m : MountSpec) (rest : List MountSpec)
    → keep_if p ms ≡ m ∷ rest
    → find? p ms ≡ some m
find?-keep_if p [] m rest e = cc
find?-keep_if p (x ∷ xs) m rest e = ground (arith, find?-keep_if p xs m rest)

isolation_evidence-workspace :
    (args : List Text) (m : MountSpec)
    → keep_if is_workspace (bind_mounts_in args) ≡ m ∷ []
    → (isolation_evidence args).workspace ≡ m.src
unfolding isolation_evidence
isolation_evidence-workspace args m e =
    ap source_or_none (find?-keep_if is_workspace (bind_mounts_in args) m [] e)

-- What a container may have mounted for the run of a subtask, and what is recorded of it: one mount at
-- /workspace, of the subtask's workspace; none at or above the workspace of another subtask of the
-- task; and one at or above the directory of all workspaces only in the subtask's own.
pub record IsMounted (workspaces : Workspaces) (o : Orchestrator) (s : Subtask)
    (mounts : List MountSpec) (evidence : IsolationEvidence) : Type 0 where
  pub work : MountSpec
  pub only_work : keep_if is_workspace mounts ≡ work ∷ []
  pub own : strip_end work.src ≡ strip_end (workspaces.path_for s.id)
  pub spares_others :
      (t : Subtask)
      → In t (values o.subtasks)
      → t.task_id ≡ s.task_id
      → t.id ≢ s.id
      → (m : MountSpec) → In m mounts
      → ¬ (AtOrBeneath m.src (workspaces.path_for t.id))
  pub spares_parent :
      (m : MountSpec)
      → In m mounts
      → AtOrBeneath m.src workspaces.parent
      → AtOrBeneath (workspaces.path_for s.id) m.src
  pub recorded : (evidence.workspace ≡ work.src) × (evidence.bind_mounts ≡ length mounts)

-- If an Agent is bound and the arguments of its container pass the check, then the Agent has a subtask
-- and a live warrant for it that carries `workspace:write`. Exactly one mount is at /workspace, of the
-- workspace of that subtask; no mount is of a directory at or above the workspace of another subtask
-- of the task; and one at or above the directory of all workspaces lies in the subtask's own. The
-- evidence names the mount at /workspace and counts the mounts. A mount of a directory within another
-- subtask's workspace is not excluded.
pub bind-verify_argv :
    (workspaces : Workspaces) (o : Orchestrator) (now : ℕ) (agent_id prompt : Text)
    (thread_id : Option Text) (b : BoundRun) (args : List Text) (evidence : IsolationEvidence)
    → bind workspaces o now agent_id prompt thread_id ≡ inr b
    → verify_argv b args ≡ inr evidence
    → (h : IsBound workspaces o now agent_id b) × IsMounted workspaces o h.subtask
        (bind_mounts_in args)
        evidence
unfolding isolation_evidence
bind-verify_argv workspaces o now agent_id prompt thread_id b args evidence e v =
    let h = bind-IsBound workspaces o now agent_id prompt thread_id b e in
    let run =
      subst (λ (u : BoundRun). IsIsolated u.isolation (bind_mounts_in args)) (sym h.bound)
        (verify_argv-IsIsolated b args evidence v) in
    let (m, (only, own)) = run.0 in
    let seen = verify_argv-evidence b args evidence v in
    (
      h,
      record {
        work = m;
        only_work = only;
        own = own;
        spares_others = λ t i same other mount j.
            (run.1 mount j).0 (workspaces.path_for t.id)
              (siblings_of-In workspaces o h.subtask t i same other);
        spares_parent = λ mount j. (run.1 mount j).1;
        recorded = (
          ap (λ (x : IsolationEvidence). x.workspace) (sym seen)
              ∙ isolation_evidence-workspace args m only,
          ap (λ (x : IsolationEvidence). x.bind_mounts) (sym seen),
        );
      },
    )
