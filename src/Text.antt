-- ===== src/Text.antt =====
-- The functions of Go's `strings` package that the program calls. A string is the list of its
-- bytes; an index of -1 is `none`.
pub mod Laws
pub mod Sets
pub mod Query
pub mod Sort
pub mod Maps
use Prim.Native.Char.{code}
use Prim.Native.String.{String}
use mathlib.Core.Option
use express_send.Common.{
  ℕ, suc, ◌+◌, ◌==◌, if◌then◌else◌, Bool, true, false, ◌&&◌, ◌||◌, Option, none, some, List, [],
  ◌∷◌, ◌++◌, length, drop, take, ◌-◌,
}

abbrev pub Text : Type 0
Text = List ℕ

-- The bytes of an ASCII literal.
abbrev pub codes : String → Text
codes String.[] = []
codes (String.◌∷◌ c s) = code c ∷ codes s

-- `a == b` on strings.
unfoldable pub eqb : Text → Text → Bool
eqb [] [] = true
eqb [] (_ ∷ _) = false
eqb (_ ∷ _) [] = false
eqb (a ∷ s) (b ∷ t) = a == b && eqb s t

-- `strings.CutPrefix`: what follows the prefix.
unfoldable pub cut_prefix : Text → Text → Option Text
cut_prefix s [] = some s
cut_prefix [] (_ ∷ _) = none
cut_prefix (c ∷ s) (p ∷ ps) = if c == p then cut_prefix s ps else none

abbrev pub is_some {ℓ} : {A : Type ℓ} → Option A → Bool
is_some none = false
is_some (some _) = true

unfoldable pub has_prefix : Text → Text → Bool
unfolding cut_prefix
has_prefix s p = is_some (cut_prefix s p)

unfoldable pub has_suffix : Text → Text → Bool
unfolding eqb
has_suffix [] p = eqb [] p
has_suffix (c ∷ s) p = eqb (c ∷ s) p || has_suffix s p

-- `strings.CutSuffix`: what stands before the suffix.
unfoldable pub cut_suffix : Text → Text → Option Text
unfolding has_suffix
cut_suffix s p = if has_suffix s p then some (take (length s - length p) s) else none

-- `strings.Index`: the place of the first occurrence.
unfoldable pub index : Text → Text → Option ℕ
unfolding has_prefix
index [] sub = if has_prefix [] sub then some 0 else none
index (c ∷ s) sub = if has_prefix (c ∷ s) sub then some 0 else Option.map suc (index s sub)

abbrev pub push_first : ℕ → List Text → List Text
push_first c [] = (c ∷ []) ∷ []
push_first c (p ∷ ps) = (c ∷ p) ∷ ps

-- `strings.Split` at a separator of one byte.
unfoldable pub split : Text → ℕ → List Text
split [] sep = [] ∷ []
split (c ∷ s) sep = let rest = split s sep in if c == sep then [] ∷ rest else push_first c rest

-- The keys of a set of strings, and the value of a key in a map; the first entry counts.
unfoldable pub contains : Text → List Text → Bool
unfolding eqb
contains a [] = false
contains a (x ∷ xs) = eqb x a || contains a xs

unfoldable pub lookup {ℓ} : {V : Type ℓ} → Text → List (Text × V) → Option V
unfolding eqb
lookup k [] = none
lookup k ((j, v) ∷ m) = if eqb j k then some v else lookup k m

-- `m[k] = v`.
unfoldable pub map_set {ℓ} : {V : Type ℓ} → Text → V → List (Text × V) → List (Text × V)
unfolding eqb
map_set k v [] = (k, v) ∷ []
map_set k v ((j, w) ∷ m) = if eqb j k then (k, v) ∷ m else (j, w) ∷ map_set k v m
