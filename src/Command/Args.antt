-- ===== src/Command/Args.antt =====
-- The order of arguments: `reorderArgs` of internal/cmd/cmd.go. `is_bool_flag` is the set of flags:
-- whether the flag with a name is Boolean, `none` for a name that it does not have.
use express_send.Common.{
  ◌≡◌, refl, inl, inr, Bool-cases, ◌==◌, Bool, false, ◌&&◌, ◌||◌, not, if◌then◌else◌, Option, none,
  some, List, [], ◌∷◌, ◌++◌,
}
use express_send.Text.{Text, codes, eqb}

-- `strings.Contains(a, "=")`.
unfoldable pub has_value : Text → Bool
has_value [] = false
has_value (c ∷ a) = c == b'=' || has_value a

-- `strings.TrimLeft(a, "-")`.
unfoldable pub flag_name : Text → Text
flag_name [] = []
flag_name (c ∷ a) = if c == b'-' then flag_name a else c ∷ a

abbrev pub is_flag : Text → Bool
is_flag [] = false
is_flag (c ∷ a) = c == b'-'

-- The arguments of one side and of the other make up a list, each side in its order.
pub data Merge : List Text → List Text → List Text → Type 0 where
  done : Merge [] [] []
  left : {a : Text} {xs ys zs : List Text} → Merge xs ys zs → Merge (a ∷ xs) ys (a ∷ zs)
  right : {a : Text} {xs ys zs : List Text} → Merge xs ys zs → Merge xs (a ∷ ys) (a ∷ zs)

all_right : (xs : List Text) → Merge [] xs xs
all_right [] = done
all_right (x ∷ xs) = right (all_right xs)

module _ (is_bool_flag : Text → Option Bool) where
  -- The flag takes the next argument as its value.
  unfoldable pub takes_value : Text → Bool
  unfolding has_value flag_name
  takes_value a =
      if has_value a
      then false
      else elim (is_bool_flag (flag_name a)) [ some boolean ↦ not boolean | none ↦ false ]

  -- The loop; `is_value` where the argument is the value of the flag before it.
  unfoldable pub split_args : Bool → List Text → List Text × List Text
  unfolding takes_value eqb
  split_args is_value [] = ([], [])
  split_args is_value (a ∷ args) =
      let rest = split_args (not is_value && is_flag a && takes_value a) args in
      if is_value
      then (a ∷ rest.0, rest.1)
      else if eqb a (codes "--")
      then ([], a ∷ args)
      else if is_flag a
      then (a ∷ rest.0, rest.1)
      else (rest.0, a ∷ rest.1)

  unfoldable pub reorder_args : List Text → List Text
  unfolding split_args
  reorder_args args = let r = split_args false args in r.0 ++ r.1

  split_args-Merge :
      (is_value : Bool) (args : List Text)
      → Merge (split_args is_value args).0 (split_args is_value args).1 args
  unfolding split_args
  split_args-Merge is_value [] = done
  split_args-Merge is_value (a ∷ args) =
      let rest = split_args-Merge (not is_value && is_flag a && takes_value a) args in
      elim (Bool-cases is_value) [
        | inl v ↦ rw (v, split_args) (left (rw v at rest))
        | inr v ↦ elim (Bool-cases (eqb a (codes "--"))) [
          | inl e ↦ rw (v, e, split_args) (right (all_right args))
          | inr e ↦ elim (Bool-cases (is_flag a)) [
            | inl k ↦ rw (v, e, k, split_args) (left (rw (v, k) at rest))
            | inr k ↦ rw (v, e, k, split_args) (right (rw (v, k) at rest))
          ]
        ]
      ]

  -- The reordered arguments are the given ones in two parts: each argument stands in one of them, and
  -- both keep the order.
  pub reorder_args-Merge :
      (args : List Text)
      → (flags : List Text) × (positional : List Text) × (reorder_args args ≡ flags ++ positional)
        × Merge flags positional args
  unfolding reorder_args
  reorder_args-Merge args =
      ((split_args false args).0, (split_args false args).1, refl, split_args-Merge false args)
