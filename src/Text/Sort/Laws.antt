-- ===== src/Text/Sort/Laws.antt =====
-- Sorting the keys of a map keeps its entries.
use express_send.Common.{Bool-cases, inl, inr, List, [], ◌∷◌, All}
use express_send.Text.{Text}
use express_send.Text.Sort.{text_leb, insert_key, sort_keys}

module _ {ℓ κ} {V : Type ℓ} (P : Text × V → Type κ) where
  All-insert_key : (e : Text × V) (m : List (Text × V)) → All P (insert_key e m) → P e × All P m
  unfolding insert_key
  All-insert_key (k, v) [] h = h
  All-insert_key (k, v) ((j, w) ∷ m) h = elim (Bool-cases (text_leb k j)) [
    | inl e ↦ rw e at h
    | inr e ↦
        let (at_j, rest) = rw e at h in
        let (at_k, more) = All-insert_key (k, v) m rest in (at_k, (at_j, more))
  ]

  -- What holds of the sorted entries holds of all entries.
  pub All-sort_keys : (m : List (Text × V)) → All P (sort_keys m) → All P m
  unfolding sort_keys
  All-sort_keys [] h = h
  All-sort_keys ((k, v) ∷ m) h =
      let (at_k, rest) = All-insert_key (k, v) (sort_keys m) h in (at_k, All-sort_keys m rest)

  insert_key-All : (e : Text × V) (m : List (Text × V)) → P e → All P m → All P (insert_key e m)
  unfolding insert_key
  insert_key-All (k, v) [] at_k h = (at_k, tt)
  insert_key-All (k, v) ((j, w) ∷ m) at_k (at_j, h) = elim (Bool-cases (text_leb k j)) [
    | inl e ↦ rw (e, insert_key) (at_k, (at_j, h))
    | inr e ↦ rw (e, insert_key) (at_j, insert_key-All (k, v) m at_k h)
  ]

  pub sort_keys-All : (m : List (Text × V)) → All P m → All P (sort_keys m)
  unfolding sort_keys
  sort_keys-All [] h = tt
  sort_keys-All ((k, v) ∷ m) (at_k, h) =
      insert_key-All (k, v) (sort_keys m) at_k (sort_keys-All m h)
