-- ===== src/Warrant/Registry/Sessions.antt =====
-- Who is calling: an identity comes from an open session and from nothing else.
use please_hire_me.Prelude.{
  ℕ, ◌≡◌, ◌≢◌, refl, none, some, [], ◌∷◌, arith, if◌then◌else◌, Text, text_eq, Assoc, lookup,
  insert, remove, lookup-insert, lookup-remove,
}
use please_hire_me.Warrant.Types.{Session}
use please_hire_me.Warrant.Registry.{
  Registry, open_session, find_session, resolve_session, close_session,
}

-- The loop finds what a lookup of the token finds.
find_session-lookup : (token : Text) (m : Assoc Session) → find_session token m ≡ lookup token m
unfolding find_session lookup
find_session-lookup token [] = refl
find_session-lookup token ((k, s) ∷ m) = ground (arith, find_session-lookup token m)

-- A token that is not empty speaks for its session's human, before and after a session is opened:
-- the new token for the new session's human, any other for whom it spoke for.
pub resolve_session-open :
    (now : ℕ) (token human_id : Text) (r : Registry) (asked : Text)
    → asked ≢ []
    → resolve_session (some asked) (open_session now token human_id r).0
      ≡ (if text_eq token asked then lookup human_id r.humans else resolve_session (some asked) r)
unfolding resolve_session open_session
resolve_session-open now token human_id r [] h = absurd (h refl)
resolve_session-open now token human_id r (c ∷ t) h =
    let s : Session = record { token = token; human_id = human_id; issued_at = now } in
    ground (
      arith,
      find_session-lookup (c ∷ t) (insert token s r.sessions),
      find_session-lookup (c ∷ t) r.sessions,
      lookup-insert token (c ∷ t) s r.sessions,
    )

-- A closed session's token speaks for nobody, and closing it takes no other session away.
pub resolve_session-close :
    (token : Text) (r : Registry) (asked : Text)
    → asked ≢ []
    → resolve_session (some asked) (close_session token r)
      ≡ (if text_eq token asked then none else resolve_session (some asked) r)
unfolding resolve_session close_session
resolve_session-close token r [] h = absurd (h refl)
resolve_session-close token r (c ∷ t) h = ground (
  arith,
  find_session-lookup (c ∷ t) (remove token r.sessions),
  find_session-lookup (c ∷ t) r.sessions,
  lookup-remove token (c ∷ t) r.sessions,
)
