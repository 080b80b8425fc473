-- ===== src/Warrant/Registry/Revocation.antt =====
-- Revocation is the owner's, immediate and for good.
use please_hire_me.Prelude.{
  ◌⊎◌, ℕ, ◌≡◌, ◌≢◌, ◌↔◌, refl, inl, inr, true, false, some, List, [], ◌∷◌, ◌++◌, arith, Bool-cases,
  Option-cases, All, codes, Text, text_eq, text_eq_iff, lookup, insert, lookup-insert,
  lookup-insert_self,
}
use please_hire_me.Warrant.Types.{Warrant}
use please_hire_me.Warrant.Registry.{
  Registry, IssueWarrantInput, add_human, open_session, close_session, issue, new_warrant,
  mark_revoked, revoke_by_id, revoke, is_live,
}

pub data Op : Type 0 where
  adds : (Text → Text) → Text → Text → Op
  opens : Text → Text → Op
  closes : Text → Op
  issues : Text → IssueWarrantInput → Op
  revokes : Text → Text → Text → Op
  revokes_by_id : Text → Text → Op

-- An operation at an instant.
abbrev pub step : ℕ → Op → Registry → Registry
step now (adds lower handle name) r = (add_human lower handle name r).0
step now (opens token human) r = (open_session now token human r).0
step now (closes token) r = close_session token r
step now (issues uuid input) r = (issue now uuid input r).0
step now (revokes id by reason) r = (revoke now id by reason r).0
step now (revokes_by_id id reason) r = (revoke_by_id now id reason r).0

unfoldable pub run : List (ℕ × Op) → Registry → Registry
run [] r = r
run ((now, op) ∷ ops) r = run ops (step now op r)

-- The operation does not draw the identifier of an old warrant again.
abbrev pub Fresh : Text → ℕ × Op → Type 0
Fresh id (now, issues uuid input) = codes "wrt_" ++ uuid ≢ id
Fresh id _ = Unit {0}

-- The warrant is there, and was revoked at `t`.
abbrev pub RevokedAt : Text → ℕ → Registry → Type 0
RevokedAt id t r = (w : Warrant) × (lookup id r.warrants ≡ some w) × (w.revoked_at ≡ some t)

mark_revoked-at :
    (now t : ℕ) (reason : Text) (w : Warrant)
    → w.revoked_at ≡ some t
    → mark_revoked now reason w ≡ w
mark_revoked-at now t reason w e = ground arith

-- Marking any warrant keeps an old revocation.
insert-RevokedAt :
    (id id' : Text) (t now : ℕ) (reason : Text) (r : Registry) (w : Warrant)
    → lookup id' r.warrants ≡ some w
    → RevokedAt id t r
    → RevokedAt id t (record r { warrants = insert id' (mark_revoked now reason w) r.warrants })
insert-RevokedAt id id' t now reason r w e (v, f, g) = (
  v,
  ground (
    arith,
    lookup-insert id' id (mark_revoked now reason w) r.warrants,
    text_eq_iff id' id,
    mark_revoked-at now t reason v g,
  ),
  g,
)

revoke-RevokedAt :
    (id id' by : Text) (t now : ℕ) (reason : Text) (r : Registry)
    → RevokedAt id t r
    → RevokedAt id t (revoke now id' by reason r).0
unfolding revoke
revoke-RevokedAt id id' by t now reason r h = elim (Option-cases (lookup id' r.warrants)) [
  | inl none_w ↦ rw (none_w, revoke) h
  | inr (w, e) ↦
      rw (e, revoke)
        (elim (Bool-cases (text_eq w.human_id by)) [
          | inl own ↦ rw own (insert-RevokedAt id id' t now reason r w e h)
          | inr other ↦ rw other h
        ])
]

revoke_by_id-RevokedAt :
    (id id' : Text) (t now : ℕ) (reason : Text) (r : Registry)
    → RevokedAt id t r
    → RevokedAt id t (revoke_by_id now id' reason r).0
unfolding revoke_by_id
revoke_by_id-RevokedAt id id' t now reason r h = elim (Option-cases (lookup id' r.warrants)) [
  | inl none_w ↦ rw (none_w, revoke_by_id) h
  | inr (w, e) ↦ rw (e, revoke_by_id) (insert-RevokedAt id id' t now reason r w e h)
]

add_human-warrants :
    (lower : Text → Text) (handle name : Text) (r : Registry)
    → (add_human lower handle name r).0.warrants ≡ r.warrants
unfolding add_human
add_human-warrants lower handle name r = ground arith

step-RevokedAt :
    (id : Text) (t now : ℕ) (op : Op) (r : Registry)
    → Fresh id (now, op)
    → RevokedAt id t r
    → RevokedAt id t (step now op r)
unfolding open_session close_session issue new_warrant
step-RevokedAt id t now (adds lower handle name) r f (w, e, g) =
    (w, rw (add_human-warrants lower handle name r) e, g)
step-RevokedAt id t now (opens token human) r f h = h
step-RevokedAt id t now (closes token) r f h = h
step-RevokedAt id t now (issues uuid input) r f (w, e, g) =
    let id' : Text = codes "wrt_" ++ uuid in
    (
      w,
      ground
          (arith, lookup-insert id' id (new_warrant now uuid input) r.warrants, text_eq_iff id' id),
      g,
    )
step-RevokedAt id t now (revokes id' by reason) r f h = revoke-RevokedAt id id' by t now reason r h
step-RevokedAt id t now (revokes_by_id id' reason) r f h =
    revoke_by_id-RevokedAt id id' t now reason r h

-- Once a warrant is revoked it is there with the same time of revocation, and is not live at any
-- instant, after any operations that do not draw its identifier again.
pub run-RevokedAt :
    (id : Text) (t : ℕ) (ops : List (ℕ × Op)) (r : Registry)
    → All (Fresh id) ops
    → RevokedAt id t r
    → (w : Warrant) × (lookup id (run ops r).warrants ≡ some w)
      × (w.revoked_at ≡ some t)
      × ((now : ℕ) → is_live now w ≡ false)
unfolding run is_live
run-RevokedAt id t [] r f (w, e, g) = (w, e, g, λ now. ground arith)
run-RevokedAt id t ((now, op) ∷ ops) r f h =
    run-RevokedAt id t ops (step now op r) f.1 (step-RevokedAt id t now op r f.0 h)

-- `revoke` succeeds exactly for the human who issued the warrant.
pub revoke_owner :
    (now : ℕ) (id by reason : Text) (r : Registry)
    → ((revoke now id by reason r).1 ≡ true)
      ↔ ((w : Warrant) × (lookup id r.warrants ≡ some w) × (w.human_id ≡ by))
unfolding revoke
revoke_owner now id by reason r = elim (Option-cases (lookup id r.warrants)) [
  | inl none_w ↦ rw (none_w, revoke) (λ e. cc, λ h. cc (h.1))
  | inr (w, e) ↦
      rw (e, revoke)
        (
          λ k. (w, refl, ground (arith, text_eq_iff w.human_id by)),
          λ h. let same : w ≡ h.0 = cc (h.1) in ground (arith, text_eq_iff w.human_id by, h.2),
        )
]

mark_revoked-is_live :
    (now at : ℕ) (reason : Text) (w : Warrant) → is_live at (mark_revoked now reason w) ≡ false
unfolding is_live
mark_revoked-is_live now at reason w = ground arith

-- Where `revoke` succeeds, the warrant is there and is live at no instant, and any other warrant
-- is as it was; where it fails, nothing has changed.
pub revoke_effect :
    (now : ℕ) (id by reason : Text) (r : Registry) (other : Text)
    → other ≢ id
    → let (r', done) = revoke now id by reason r in
      ((done ≡ true)
        × ((w : Warrant) × (lookup id r'.warrants ≡ some w) × ((at : ℕ) → is_live at w ≡ false))
        × (lookup other r'.warrants ≡ lookup other r.warrants))
      ⊎ ((done ≡ false) × (r' ≡ r))
unfolding revoke
revoke_effect now id by reason r other differ = elim (Option-cases (lookup id r.warrants)) [
  | inl none_w ↦ rw (none_w, revoke) (inr (refl, refl))
  | inr (w, e) ↦
      rw (e, revoke)
        (elim (Bool-cases (text_eq w.human_id by)) [
          | inl own ↦ rw own (
              inl (
                refl,
                (
                  mark_revoked now reason w,
                  lookup-insert_self id (mark_revoked now reason w) r.warrants,
                  λ at. mark_revoked-is_live now at reason w,
                ),
                ground (
                  arith,
                  lookup-insert id other (mark_revoked now reason w) r.warrants,
                  text_eq_iff id other,
                ),
              ))
          | inr stranger ↦ rw stranger (inr (refl, refl))
        ])
]
