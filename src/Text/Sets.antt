-- ===== src/Text/Sets.antt =====
-- Lists of strings that hold no string twice.
use mathlib.Core.Bool.{or-true, or-false}
use express_send.Common.{
  ◌∙◌, sym, true, false, ◌||◌, List, [], ◌∷◌, ◌++◌, ◌≡◌, refl, inl, inr, arith, All, Bool-cases,
  subst,
}
use express_send.Text.{Text, eqb, contains}
use express_send.Text.Laws.{eqb_iff}

abbrev pub Distinct : List Text → Type 0
Distinct [] = Unit
Distinct (x ∷ xs) = (contains x xs ≡ false) × Distinct xs

pub contains-append :
    (a : Text) (xs ys : List Text) → contains a (xs ++ ys) ≡ (contains a xs || contains a ys)
unfolding contains
contains-append a [] ys = refl
contains-append a (x ∷ xs) ys = ground (arith, contains-append a xs ys)

-- What holds of all members holds of each one.
pub All_at {ℓ} :
    (P : Text → Type ℓ) (xs : List Text) (a : Text) → All P xs → contains a xs ≡ true → P a
unfolding contains
All_at P [] a h e = cc
All_at P (x ∷ xs) a h e = elim (Bool-cases (eqb x a)) [
  | inl same ↦ subst P ((eqb_iff x a).0 same) h.0
  | inr other ↦ All_at P xs a h.1 (ground arith)
]

pub contains-concat :
    (a c : Text) (xs : List Text) → contains a (xs ++ c ∷ []) ≡ (contains a xs || eqb c a)
unfolding contains
contains-concat a c [] = ground arith
contains-concat a c (x ∷ xs) = ground (arith, contains-concat a c xs)

pub Distinct-concat :
    (xs : List Text) (c : Text) → Distinct xs → contains c xs ≡ false → Distinct (xs ++ c ∷ [])
unfolding contains
Distinct-concat [] c d h = (refl, tt)
Distinct-concat (x ∷ xs) c d h = (
  ground (arith, contains-concat x c xs, eqb_iff x c, eqb_iff c x),
  Distinct-concat xs c d.1 (ground arith),
)

-- Adding one key at the front of a set and at the end of a list with the same members.
pub contains-add :
    (a c : Text) (seen xs : List Text)
    → contains a seen ≡ contains a xs
    → contains a (c ∷ seen) ≡ contains a (xs ++ c ∷ [])
unfolding contains
contains-add a c seen xs h = ground (arith, contains-concat a c xs)

pub already :
    (a c : Text) (xs : List Text)
    → contains c xs ≡ true
    → contains a xs ≡ (contains a xs || eqb c a)
already a c xs h = elim (Bool-cases (eqb c a)) [
  | inl same ↦
      let there : contains a xs ≡ true = rw ((eqb_iff c a).0 same) at h in
      rw same (there ∙ sym (or-true (contains a xs)))
  | inr other ↦ rw other (sym (or-false (contains a xs)))
]
