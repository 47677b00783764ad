-- ===== src/Gitlab/Route.antt =====
-- The routing rules of internal/server/gitlab_routing.go: selectors, conditions, routes and
-- `evaluateRoutes`. The regular expressions of Go's `regexp` are the parameter `Regexp`.
pub mod Evaluate
pub mod Compile
use express_send.Common.{
  ℕ, ◌+◌, Bool, true, false, ◌&&◌, ◌||◌, not, if◌then◌else◌, Option, none, some, List, [], ◌∷◌,
  ◌++◌,
}
use express_send.Text.{Text, codes, eqb, contains, cut_prefix}
use express_send.Gitlab.Payload.{
  Json, null, bool, num, str, arr, obj, Items, nil, cons, Fields, GitlabView, gitlab_nested_get,
  gitlab_string_at, or_else,
}
use express_send.Gitlab.Filter.{event_matches}
use express_send.Gitlab.Glob.{glob_match}

-- `path.Base`: the text behind the last slash, trailing slashes left out.
unfoldable pub strip_slashes : Text → Text
unfolding eqb
strip_slashes [] = []
strip_slashes (c ∷ s) =
    let rest = strip_slashes s in if eqb (c ∷ []) (codes "/") && eqb rest [] then [] else c ∷ rest

unfoldable pub after_slash : Text → Text → Text
unfolding eqb
after_slash last [] = last
after_slash last (c ∷ s) = after_slash (if eqb (c ∷ []) (codes "/") then s else last) s

unfoldable pub path_base : Text → Text
unfolding strip_slashes after_slash
path_base [] = codes "."
path_base (c ∷ s) =
    let stripped = strip_slashes (c ∷ s) in
    if eqb stripped [] then codes "/" else after_slash stripped stripped

-- The loop over the two prefixes: the name behind the first that fits.
unfoldable pub cut_ref : Text → Option Text
unfolding cut_prefix
cut_ref ref = elim (cut_prefix ref (codes "refs/heads/")) [
  | some s ↦ some s
  | none ↦ cut_prefix ref (codes "refs/tags/")
]

unfoldable pub ref_branch : Text → Text
unfolding cut_ref path_base
ref_branch ref = if eqb ref [] then [] else elim (cut_ref ref) [ some s ↦ s | none ↦ path_base ref ]

unfoldable pub ref_branch_bare : Text → Text
unfolding cut_ref
ref_branch_bare ref = elim (cut_ref ref) [ some s ↦ s | none ↦ ref ]

unfoldable pub gitlab_branch : Text → Fields → Text
unfolding ref_branch ref_branch_bare gitlab_string_at
gitlab_branch kind raw =
    if eqb kind (codes "merge_request") || eqb kind (codes "note")
    then or_else (gitlab_string_at raw (codes "object_attributes.target_branch"))
        (gitlab_string_at raw (codes "merge_request.target_branch"))
    else if eqb kind (codes "push") || eqb kind (codes "tag_push")
    then ref_branch (gitlab_string_at raw (codes "ref"))
    else if eqb kind (codes "build")
    then ref_branch_bare (gitlab_string_at raw (codes "ref"))
    else if eqb kind (codes "pipeline")
    then gitlab_string_at raw (codes "object_attributes.ref")
    else []

unfoldable pub gitlab_project : Fields → Text
unfolding gitlab_string_at
gitlab_project raw =
    or_else (gitlab_string_at raw (codes "project.path_with_namespace"))
      (gitlab_string_at raw (codes "project.name"))

unfoldable pub non_empty : Text → List Text
non_empty [] = []
non_empty (c ∷ s) = (c ∷ s) ∷ []

unfoldable pub gitlab_scalar_string : Json → Option Text
gitlab_scalar_string (str s) = some s
gitlab_scalar_string (bool true) = some (codes "true")
gitlab_scalar_string (bool false) = some (codes "false")
gitlab_scalar_string (num x) = some x
gitlab_scalar_string _ = none

unfoldable pub item_strings : Items → List Text
unfolding gitlab_scalar_string
item_strings nil = []
item_strings (cons v vs) =
    let rest = item_strings vs in elim (gitlab_scalar_string v) [ some s ↦ s ∷ rest | none ↦ rest ]

unfoldable pub gitlab_selector_strings : Json → List Text
unfolding item_strings gitlab_scalar_string
gitlab_selector_strings (arr vs) = item_strings vs
gitlab_selector_strings v = elim (gitlab_scalar_string v) [ some s ↦ s ∷ [] | none ↦ [] ]

-- The values of an event that a selector names.
unfoldable pub resolve_selector : GitlabView → Text → List Text
unfolding non_empty gitlab_project gitlab_branch gitlab_selector_strings gitlab_nested_get
resolve_selector view selector =
    if eqb selector (codes "kind")
    then non_empty view.kind
    else if eqb selector (codes "event")
    then non_empty view.event_key
    else if eqb selector (codes "action")
    then non_empty view.action
    else if eqb selector (codes "project")
    then non_empty (gitlab_project view.raw)
    else if eqb selector (codes "branch")
    then non_empty (gitlab_branch view.kind view.raw)
    else if eqb selector (codes "user")
    then non_empty view.user
    else if eqb selector (codes "title")
    then non_empty view.title
    else if eqb selector (codes "url")
    then non_empty view.url
    else gitlab_selector_strings (gitlab_nested_get view.raw selector)

-- A compiled pattern: a glob, or a regular expression.
pub data PatternMatcher (Regexp : Type 0) : Type 0 where
  glob : Text → PatternMatcher Regexp
  regex : Regexp → PatternMatcher Regexp

pub data CompiledCondition (Regexp : Type 0) : Type 0 where
  -- The selector "event", with its entries.
  on_event : List Text → CompiledCondition Regexp
  on_value : Text → List (PatternMatcher Regexp) → CompiledCondition Regexp

pub record CompiledRoute (Regexp : Type 0) : Type 0 where
  pub conds : List (CompiledCondition Regexp)
  pub chats : List Text
  pub stop : Bool

-- `re.MatchString` is the parameter `match_string`.
module _ {Regexp : Type 0} (match_string : Regexp → Text → Bool) where
  unfoldable pub matches : PatternMatcher Regexp → Text → Bool
  matches (glob pattern) value = glob_match pattern value
  matches (regex re) value = match_string re value

  -- The inner loop of `conditionMatches`.
  unfoldable pub any_matcher : Text → List (PatternMatcher Regexp) → Bool
  unfolding matches
  any_matcher v [] = false
  any_matcher v (m ∷ ms) = matches m v || any_matcher v ms

  unfoldable pub condition_matches : List Text → List (PatternMatcher Regexp) → Bool
  unfolding any_matcher
  condition_matches [] ms = false
  condition_matches (v ∷ vs) ms = any_matcher v ms || condition_matches vs ms

  unfoldable pub cond_holds : GitlabView → CompiledCondition Regexp → Bool
  unfolding condition_matches
  cond_holds view (on_event entries) = event_matches view.kind view.event_key entries
  cond_holds view (on_value selector ms) = condition_matches (resolve_selector view selector) ms

  unfoldable pub all_hold : GitlabView → List (CompiledCondition Regexp) → Bool
  unfolding cond_holds
  all_hold view [] = true
  all_hold view (c ∷ cs) = cond_holds view c && all_hold view cs

  unfoldable pub route_matches : GitlabView → CompiledRoute Regexp → Bool
  unfolding all_hold
  route_matches view route = all_hold view route.conds

-- The local variables `seen` and `chats` of `evaluateRoutes`.
pub record Collected : Type 0 where
  pub seen : List Text
  pub chats : List Text

-- One round of the loop over the chats of a rule, and the loop.
unfoldable pub add_chat : Collected → Text → Collected
add_chat s c =
    if contains c s.seen then s else record { seen = c ∷ s.seen; chats = s.chats ++ c ∷ [] }

unfoldable pub add_chats : Collected → List Text → Collected
unfolding add_chat
add_chats s [] = s
add_chats s (c ∷ cs) = add_chats (add_chat s c) cs

pub record Evaluation : Type 0 where
  pub chats : List Text
  pub matched : Bool
  pub matched_rules : List ℕ

module _ {Regexp : Type 0} (match_string : Regexp → Text → Bool) (view : GitlabView) where
  -- The loop over the rules, from rule `i` on.
  unfoldable pub evaluate_from :
      ℕ → Collected → Bool → List ℕ → List (CompiledRoute Regexp) → Evaluation
  evaluate_from i s matched rules [] = record {
    chats = s.chats;
    matched = matched;
    matched_rules = rules;
  }
  evaluate_from i s matched rules (route ∷ routes) =
      let s' = add_chats s route.chats in
      let rules' = rules ++ i ∷ [] in
      let skipped = evaluate_from (i + 1) s matched rules routes in
      let continued = evaluate_from (i + 1) s' true rules' routes in
      if not (route_matches match_string view route)
      then skipped
      else if route.stop
      then record { chats = s'.chats; matched = true; matched_rules = rules' }
      else continued

  unfoldable pub evaluate_routes : List (CompiledRoute Regexp) → Evaluation
  unfolding evaluate_from
  evaluate_routes routes = evaluate_from 0 (record { seen = []; chats = [] }) false [] routes
