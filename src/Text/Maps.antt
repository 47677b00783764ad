-- ===== src/Text/Maps.antt =====
-- Maps with strings as keys, as lists of pairs.
use express_send.Common.{◌≡◌, refl, inl, inr, Bool-cases, false, some, List, [], ◌∷◌}
use express_send.Text.{Text, eqb, lookup, map_set}
use express_send.Text.Laws.{eqb_iff, eqb_refl}

module _ {ℓ} {V : Type ℓ} where
  pub lookup-map_set : (k : Text) (v : V) (m : List (Text × V)) → lookup k (map_set k v m) ≡ some v
  unfolding lookup map_set
  lookup-map_set k v [] = rw (eqb_refl k) refl
  lookup-map_set k v ((j, w) ∷ m) = elim (Bool-cases (eqb j k)) [
    | inl x ↦ rw (x, map_set, eqb_refl k) refl
    | inr x ↦ rw (x, map_set, x) (lookup-map_set k v m)
  ]

  pub lookup-map_set_other :
      (k other : Text) (v : V) (m : List (Text × V))
      → eqb k other ≡ false
      → lookup other (map_set k v m) ≡ lookup other m
  unfolding lookup map_set
  lookup-map_set_other k other v [] h = rw h refl
  lookup-map_set_other k other v ((j, w) ∷ m) h = elim (Bool-cases (eqb j k)) [
    | inl x ↦ rw (x, map_set, h, (eqb_iff j k).0 x, h) refl
    | inr x ↦ elim (Bool-cases (eqb j other)) [
      | inl y ↦ rw (x, map_set, y) refl
      | inr y ↦ rw (x, map_set, y) (lookup-map_set_other k other v m h)
    ]
  ]
