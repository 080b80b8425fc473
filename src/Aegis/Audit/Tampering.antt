-- ===== src/Aegis/Audit/Tampering.antt =====
-- What a chain that verifies says of the events in it.
use please_hire_me.Prelude.{
  ◌≡◌, inl, inr, refl, sym, ap, ap₂, ◌∙◌, none, List, [], ◌∷◌, arith, length, map, In, Text,
}
use please_hire_me.Aegis.Audit.{
  SafetyEvent, Covered, Settings, canonical_json, hash_event, verify_from,
}
use please_hire_me.Aegis.Audit.Chain.{last_hash, Chained, verify_from_iff}

-- The hashes of two events differ where what they cover differs.
abbrev pub NoCollision : Settings → List SafetyEvent → List SafetyEvent → Type 0
NoCollision settings xs ys =
    (x y : SafetyEvent)
    → In x xs
    → In y ys
    → hash_event settings x ≡ hash_event settings y
    → canonical_json x ≡ canonical_json y

same_chain :
    (settings : Settings) (p q : Text) (xs ys : List SafetyEvent)
    → NoCollision settings xs ys
    → length xs ≡ length ys
    → Chained settings p xs
    → Chained settings q ys
    → last_hash p xs ≡ last_hash q ys
    → (p ≡ q) × (map canonical_json xs ≡ map canonical_json ys)
unfolding last_hash
same_chain settings p q [] [] n l c d e = (e, refl)
same_chain settings p q [] (y ∷ ys) n l c d e = absurd (ground arith)
same_chain settings p q (x ∷ xs) [] n l c d e = absurd (ground arith)
same_chain settings p q (x ∷ xs) (y ∷ ys) n l c d e =
    let ih =
      same_chain settings x.hash y.hash xs ys (λ u v i j. n u v (inr i) (inr j)) (ground arith)
        c.1.1 d.1.1 e in
    let covered = n x y (inl refl) (inl refl) (c.1.0 ∙ ih.0 ∙ sym d.1.0) in
    (sym c.0 ∙ ap (λ (v : Covered). v.prev_hash) covered ∙ d.0, ap₂ ◌∷◌ covered ih.1)

-- Tampering shows: as many events that verify and end in the same hash agree in all that is covered,
-- if no two different events among them have the same hash.
pub verify_from-tampered :
    (settings : Settings) (p q : Text) (xs ys : List SafetyEvent)
    → NoCollision settings xs ys
    → length xs ≡ length ys
    → verify_from settings p xs 0 ≡ none
    → verify_from settings q ys 0 ≡ none
    → last_hash p xs ≡ last_hash q ys
    → (p ≡ q) × (map canonical_json xs ≡ map canonical_json ys)
verify_from-tampered settings p q xs ys n l c d e =
    same_chain settings p q xs ys n l ((verify_from_iff settings p xs 0).0 c)
      ((verify_from_iff settings q ys 0).0 d) e
