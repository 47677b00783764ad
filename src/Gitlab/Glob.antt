-- ===== src/Gitlab/Glob.antt =====
-- `globMatch` of internal/server/gitlab_routing.go: a pattern is split at `*` and its parts are
-- looked for from left to right.
pub mod Relation
use express_send.Common.{
  ℕ, ◌+◌, if◌then◌else◌, Bool, true, false, Option, none, some, List, [], ◌∷◌, length, drop,
}
use express_send.Text.{Text, eqb, has_prefix, has_suffix, index, split}

abbrev pub star_byte : ℕ
star_byte = b'*'

-- The parts behind the first: `mid` is the next one. The last must end the value.
unfoldable pub glob_from : Text → List Text → Text → Bool
glob_from mid [] value = has_suffix value mid
glob_from mid (next ∷ more) value = elim (index value mid) [
  | none ↦ false
  | some i ↦ glob_from next more (drop (i + length mid) value)
]

-- The parts of a split pattern; a split always has one.
unfoldable pub glob_parts : Text → List Text → Text → Bool
unfolding glob_from
glob_parts pattern [] value = false
glob_parts pattern (p ∷ []) value = eqb pattern value
glob_parts pattern (p ∷ q ∷ more) value =
    if has_prefix value p then glob_from q more (drop (length p) value) else false

unfoldable pub glob_match : Text → Text → Bool
unfolding glob_parts
glob_match pattern value = glob_parts pattern (split pattern star_byte) value
