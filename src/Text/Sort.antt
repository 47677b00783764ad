-- ===== src/Text/Sort.antt =====
-- The order of strings, and the sorting of the keys of a map.
pub mod Laws
use express_send.Common.{Bool, true, false, ◌&&◌, ◌||◌, if◌then◌else◌, ltb, ◌==◌, List, [], ◌∷◌}
use express_send.Text.{Text}

-- `s <= t` on strings, byte by byte, and `sort.Strings` on the keys of a map.
unfoldable pub text_leb : Text → Text → Bool
text_leb [] t = true
text_leb (a ∷ s) [] = false
text_leb (a ∷ s) (b ∷ t) = ltb a b || (a == b && text_leb s t)

unfoldable pub insert_key {ℓ} : {V : Type ℓ} → Text × V → List (Text × V) → List (Text × V)
unfolding text_leb
insert_key (k, v) [] = (k, v) ∷ []
insert_key (k, v) ((j, w) ∷ m) =
    if text_leb k j then (k, v) ∷ (j, w) ∷ m else (j, w) ∷ insert_key (k, v) m

unfoldable pub sort_keys {ℓ} : {V : Type ℓ} → List (Text × V) → List (Text × V)
unfolding insert_key
sort_keys [] = []
sort_keys ((k, v) ∷ m) = insert_key (k, v) (sort_keys m)
