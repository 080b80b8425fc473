-- ===== src/Warrant/Registry.antt =====
-- apps/server/src/warrant/registry.ts: humans, sessions and warrants. The clock, the random
-- identifiers and `toLowerCase` are arguments.
pub mod Sessions
pub mod Revocation
use please_hire_me.Prelude.{
  ℕ, ◌+◌, Bool, true, false, not, ◌&&◌, ◌||◌, Option, none, some, List, [], ◌∷◌, ◌++◌,
  if◌then◌else◌, leb, is_none, is_some, or_else, keep_if, find?, Text, codes, text_eq, trim, Assoc,
  lookup, insert, remove, values,
}
use please_hire_me.Warrant.Types.{
  HumanPrincipal, WarrantAgentPrincipal, Warrant, WarrantScope, WarrantOrigin, subtask, Session,
}

pub record Registry : Type 0 where
  pub humans : Assoc HumanPrincipal
  pub by_handle : Assoc Text
  pub warrants : Assoc Warrant
  pub sessions : Assoc Session

pub record IssueWarrantInput : Type 0 where
  pub human_id : Text
  pub agent_id : Text
  pub subtask_id : Text
  pub scopes : List WarrantScope
  pub resources : List Text
  pub ttl_ms : Option ℕ
  pub origin : Option WarrantOrigin
  pub granted_by : Option Text
  pub expires_at : Option ℕ

abbrev pub default_warrant_ttl_ms : ℕ
default_warrant_ttl_ms = 3_600_000

abbrev pub new_human : Text → Text → HumanPrincipal
new_human handle display_name = record {
  id = codes "human:" ++ handle;
  handle = handle;
  display_name = display_name;
}

-- The human behind a handle, if both maps have it; an id is never the empty string.
abbrev pub known_human : Text → Registry → Option HumanPrincipal
known_human handle r = elim (lookup handle r.by_handle) [
  | none ↦ none
  | some id ↦ lookup id r.humans
]

unfoldable pub add_human : (Text → Text) → Text → Text → Registry → Registry × HumanPrincipal
add_human lower handle display_name r = elim (known_human (lower handle) r) [
  | some existing ↦ (r, existing)
  | none ↦
      let human = new_human (lower handle) display_name in
      (
        record r {
          humans = insert human.id human r.humans;
          by_handle = insert human.handle human.id r.by_handle;
        },
        human,
      )
]

unfoldable pub human_by_handle : (Text → Text) → Text → Registry → Option HumanPrincipal
human_by_handle lower handle r = known_human (lower (trim handle)) r

-- `token` stands for the two random identifiers that the source joins.
unfoldable pub open_session : ℕ → Text → Text → Registry → Registry × Session
open_session now token human_id r =
    let session : Session = record { token = token; human_id = human_id; issued_at = now } in
    (record r { sessions = insert token session r.sessions }, session)

-- The loop over the sessions.
unfoldable pub find_session : Text → Assoc Session → Option Session
find_session token [] = none
find_session token ((stored, session) ∷ rest) =
    if text_eq stored token then some session else find_session token rest

unfoldable pub resolve_session : Option Text → Registry → Option HumanPrincipal
unfolding find_session
resolve_session none r = none
resolve_session (some []) r = none
resolve_session (some (c ∷ t)) r = elim (find_session (c ∷ t) r.sessions) [
  | none ↦ none
  | some session ↦ lookup session.human_id r.humans
]

unfoldable pub close_session : Text → Registry → Registry
close_session token r = record r { sessions = remove token r.sessions }

unfoldable pub new_warrant : ℕ → Text → IssueWarrantInput → Warrant
new_warrant now uuid input = record {
  id = codes "wrt_" ++ uuid;
  human_id = input.human_id;
  agent_id = input.agent_id;
  subtask_id = input.subtask_id;
  origin = or_else input.origin subtask;
  granted_by = input.granted_by;
  scopes = input.scopes;
  resources = input.resources;
  issued_at = now;
  expires_at = or_else input.expires_at (now + or_else input.ttl_ms default_warrant_ttl_ms);
  revoked_at = none;
  revoked_reason = none;
}

unfoldable pub issue : ℕ → Text → IssueWarrantInput → Registry → Registry × Warrant
unfolding new_warrant
issue now uuid input r =
    let w = new_warrant now uuid input in (record r { warrants = insert w.id w r.warrants }, w)

-- `warrant(id)`: an empty id has no warrant.
unfoldable pub warrant_of : Option Text → Registry → Option Warrant
warrant_of none r = none
warrant_of (some []) r = none
warrant_of (some (c ∷ id)) r = lookup (c ∷ id) r.warrants

unfoldable pub is_expired : ℕ → Warrant → Bool
is_expired now w = leb w.expires_at now

unfoldable pub is_live : ℕ → Warrant → Bool
unfolding is_expired
is_live now w = is_none w.revoked_at && not (is_expired now w)

unfoldable pub warrant_for_agent : ℕ → Text → Registry → Option Warrant
unfolding is_live
warrant_for_agent now agent_id r =
    find? (λ w. text_eq w.agent_id agent_id && is_live now w) (values r.warrants)

unfoldable pub live_warrants_for_human : ℕ → Text → Registry → List Warrant
unfolding is_live
live_warrants_for_human now human_id r =
    keep_if (λ w. text_eq w.human_id human_id && is_live now w) (values r.warrants)

-- The two assignments, made only to a warrant that is not revoked yet.
abbrev pub mark_revoked : ℕ → Text → Warrant → Warrant
mark_revoked now reason w =
    if is_some w.revoked_at
    then w
    else record w { revoked_at = some now; revoked_reason = some reason }

unfoldable pub revoke_by_id : ℕ → Text → Text → Registry → Registry × Bool
revoke_by_id now id reason r = elim (lookup id r.warrants) [
  | none ↦ (r, false)
  | some w ↦ (record r { warrants = insert id (mark_revoked now reason w) r.warrants }, true)
]

unfoldable pub revoke : ℕ → Text → Text → Text → Registry → Registry × Bool
revoke now id by_human_id reason r = elim (lookup id r.warrants) [
  | none ↦ (r, false)
  | some w ↦
      if not (text_eq w.human_id by_human_id)
      then (r, false)
      else (record r { warrants = insert id (mark_revoked now reason w) r.warrants }, true)
]

unfoldable pub principal_for : Warrant → WarrantAgentPrincipal
principal_for w = record {
  agent_id = w.agent_id;
  owner_id = w.human_id;
  warrant_id = w.id;
  scopes = w.scopes;
}
