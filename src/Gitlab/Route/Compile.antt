-- ===== src/Gitlab/Route/Compile.antt =====
-- `compilePattern` and `CompileGitlabRoutes` of internal/server/gitlab_routing.go.
-- `regexp.Compile` is the parameter `compile_regexp`; it fails on a malformed expression.
pub mod Meaning
use express_send.Common.{
  ℕ, ◌+◌, ◌-◌, Bool, true, false, ◌&&◌, ◌||◌, not, if◌then◌else◌, leb, ltb, ◌==◌, Option, none,
  some, List, [], ◌∷◌, ◌++◌, length, take, drop, Result, ok, err, ◌>>=◌,
}
use express_send.Text.{Text, codes, eqb, has_prefix, has_suffix}
use express_send.Text.Sort.{sort_keys}
use express_send.Gitlab.Route.{
  PatternMatcher, glob, regex, CompiledCondition, on_event, on_value, CompiledRoute,
}

-- `GitlabRouteYAMLConfig`: `Match` is a map, listed with its keys.
pub record GitlabRoute : Type 0 where
  pub match : List (Text × List Text)
  pub chats : List Text
  pub stop : Bool

-- The rule, the selector and the pattern that an error message names.
pub record RouteError : Type 0 where
  pub rule : ℕ
  pub selector : Text
  pub pattern : Text

-- A pattern of the form `/.../`, and the expression between the slashes.
unfoldable pub is_slashed : Text → Bool
unfolding has_prefix has_suffix
is_slashed pattern =
    leb 2 (length pattern) && has_prefix pattern (codes "/") && has_suffix pattern (codes "/")

abbrev pub between_slashes : Text → Text
between_slashes pattern = take (length pattern - 2) (drop 1 pattern)

module _ {Regexp : Type 0} (compile_regexp : Text → Option Regexp) where
  unfoldable pub compile_pattern : Text → Option (PatternMatcher Regexp)
  unfolding is_slashed
  compile_pattern pattern =
      if is_slashed pattern
      then elim (compile_regexp (between_slashes pattern)) [
        | none ↦ none
        | some re ↦ some (regex re)
      ]
      else some (glob pattern)

  -- The loop over the patterns of a selector.
  unfoldable pub compile_patterns :
      ℕ → Text → List Text → Result RouteError (List (PatternMatcher Regexp))
  unfolding compile_pattern
  compile_patterns i selector [] = ok []
  compile_patterns i selector (p ∷ ps) =
      let rest = compile_patterns i selector ps in
      elim (compile_pattern p) [
        | none ↦ err (record { rule = i; selector = selector; pattern = p })
        | some m ↦ rest >>= λ ms. ok (m ∷ ms)
      ]

  unfoldable pub compile_cond : ℕ → Text × List Text → Result RouteError (CompiledCondition Regexp)
  unfolding compile_patterns
  compile_cond i (selector, patterns) =
      if eqb selector (codes "event")
      then ok (on_event patterns)
      else compile_patterns i selector patterns >>= λ ms. ok (on_value selector ms)

  -- The loop over the selectors of a rule.
  unfoldable pub compile_conds :
      ℕ → List (Text × List Text) → Result RouteError (List (CompiledCondition Regexp))
  unfolding compile_cond
  compile_conds i [] = ok []
  compile_conds i (entry ∷ m) =
      let rest = compile_conds i m in compile_cond i entry >>= λ c. rest >>= λ cs. ok (c ∷ cs)

  -- The loop over the rules, from rule `i` on.
  unfoldable pub compile_from :
      ℕ → List GitlabRoute → Result RouteError (List (CompiledRoute Regexp))
  unfolding compile_conds sort_keys
  compile_from i [] = ok []
  compile_from i (r ∷ rs) =
      let rest = compile_from (i + 1) rs in
      compile_conds i (sort_keys r.match) >>= λ cs.
      rest >>= λ routes. ok (record { conds = cs; chats = r.chats; stop = r.stop } ∷ routes)

  unfoldable pub compile_gitlab_routes :
      List GitlabRoute → Result RouteError (List (CompiledRoute Regexp))
  unfolding compile_from
  compile_gitlab_routes routes = compile_from 0 routes
