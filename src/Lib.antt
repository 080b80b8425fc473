-- ===== src/Lib.antt =====
-- A verification library for the server of PleaseHireMe, where coding Agents of several people
-- work on shared documents under delegated authority.
--
-- The parts, and how they interact:
--
-- * apps/server/src/concord/merge.ts is Concord.Merge: splitting into lines, the diff by a table
--   of longest common subsequences (`lcs_lengths`, `diff_lines`), and `merge3`.
--   Concord.Merge.Patch defines what applying a diff is; Merge.Diff, Merge.Splices, Merge.Converge,
--   Merge.Ascending, Merge.Applied, Merge.Clashes and Merge.Commute hold the proofs.
-- * apps/server/src/concord/sections.ts is Concord.Sections: `locate_section`, the check of a
--   diff against a section (`find_out_of_bounds`) and the allocations of `SectionRegistry`.
-- * apps/server/src/concord/provenance.ts is Concord.Provenance: which Agent last changed each
--   line (`reconcile_provenance`, a loop over the hunks of a diff) and whom a comment on a range
--   should go to (`responsible_agents`).
-- * apps/server/src/concord/store.ts is Concord.DocResource and Concord.Store: State has the
--   types of the store and the steps that operations share, Messages the texts of the log, Commit
--   the closures of `write`, Write `read`, `write` and `writeAsHuman`, Resolve the settlement of a
--   conflict, Leases `acquireLease` and `releaseLease`, KeepBoth `keepBoth`, and Views what the
--   store shows. A write asks an authorization check, honours a lease, compares versions, merges
--   with the text that the Agent last read, checks the section on the text that would land, and
--   attributes each line. Store.Promises states what an operation leaves; Store.Effects,
--   Store.Edits, Store.ByHand, Store.Settling, Store.Exclusion, Store.Anchors, Store.Sizes,
--   Store.BothKept, Store.Shown, Store.Present, Store.Soundness, Store.Steps and Store.SoundRuns hold
--   the proofs, and Store.Runs defines a run of operations on a store and when a store is sound.
-- * apps/server/src/warrant/types.ts and resources.ts are Warrant.Types and Warrant.Resources:
--   scopes, warrants, grants, path normalisation and the covering of resources.
-- * apps/server/src/warrant/policy.ts is Warrant.Policy: the authorization decision.
-- * apps/server/src/warrant/registry.ts is Warrant.Registry: humans, sessions and warrants.
-- * apps/server/src/warrant/sharing.ts is Warrant.Sharing: what a human may share, the grants,
--   and the warrants that a grant mints in the registry.
-- * apps/server/src/warrant/orchestrator.ts is Warrant.Orchestrator, with the types of Warrant.Tasks,
--   the splitter by rule (splitter.ts) in Warrant.Splitter and the choice of a model
--   (model-policy.ts) in Warrant.ModelPolicy. `plan` issues a warrant in the registry for each Agent.
-- * apps/server/src/warrant/index.ts is Warrant.Plane: `check` collects the facts for the policy
--   from the registry and the orchestrator. The handlers of routes.ts that submit a subtask and
--   integrate a task stand there too. Plane.Histories has every sequence of these operations.
-- * apps/server/src/review/types.ts and service.ts are Review: State has the state of a
--   ReviewService, its errors and what is persisted, Comments `createComment` with its tests in the
--   order of the code (`place`), the anchor, `setStatus`, `agentResolve` and `resolve`, Runs
--   `planRuns`, `openRun` and `closeRun`. A comment asks the store for the text and for who wrote
--   the lines. Review.Histories has every sequence of these operations. authored.ts and
--   apply-authored.ts are Review.Authored: what an Agent writes about comments at the end of a turn,
--   applied through the service after the plane's check.
-- * apps/server/src/aegis/state/breaker.ts and latch.ts are Aegis.Breaker and Aegis.Latch: the
--   circuit breaker that keeps an Agent out after violations, and the kill switch.
-- * apps/server/src/aegis/types.ts and policy are Aegis.Policy, with the engine that combines the
--   verdicts of rules, Policy.Resource the forms of paths and hosts, and Policy.Bundle the rules.
--   Policy.Overrides and Policy.Confinement hold the proofs. audit.ts is Aegis.Audit: the log of
--   events chained by hashes, with Audit.Chain, Audit.Tampering
--   and Audit.Retention for the proofs. The mounts of a
--   container and their check, in sandbox/args.ts, are Aegis.Isolation.
-- * apps/server/src/warrant/binding.ts is Warrant.Binding: from the subtask and the warrant of an
--   Agent to a run whose container Aegis.Isolation checks.
--
-- Modules named Examples run the definitions on small inputs. Prelude has the shared helpers:
-- tests on numbers, lists with a native length, texts and association lists.
--
-- Conventions. A text is the list of its UTF-16 code units. An instant is a number of milliseconds
-- where the source holds the ISO string of that instant, and an operation reads the clock once. A
-- Map is an association list in order of insertion. A rule identifier is a constructor, and a
-- reason is a constructor that holds the values that its message names; a refusal for a section is
-- the constructor `out_of_section` where the source has one more "denied". A conflict's identifier
-- is the pair of its number and its document's slug. The random identifiers are an argument, `uuid
-- n` for the n-th; `drawn` counts a commit's possible draws, of which some may go unused.
-- `toLowerCase`, SHA-256, the authorization check, and the hosts that a command names are
-- arguments. The throw of an exception is `none`, or a constructor of the result. Session tokens are compared by code units, the source compares
-- their UTF-8 bytes.
--
-- Bounds. Numbers are natural numbers without a bound: they count lines, versions and
-- milliseconds, which stay far below 2 ^ 53. A subtraction stops at 0; where the source subtracts,
-- the operands are in order, but for the index of a line before the first, which has a case of its
-- own. `diff_loop` and the other loops recurse on their lists, and a loop that counts up to a limit
-- takes the number of its rounds, which the caller computes from that limit. The one loop on fuel is
-- `free_heading`: of one more heading than are taken, one is free.
--
-- Not modelled: writing to disk and reading from it, and the promise chains that run the
-- operations on one document one after the other, so an operation is one step; the store's
-- `initialize`; the directories of subtasks, the running of Agents on comments, the patterns by which their
-- answers are matched, the rest of AEGIS, the HTTP routes, the runners and the web client.
pub mod Prelude
pub mod Concord
pub mod Warrant
pub mod Review
pub mod Aegis
