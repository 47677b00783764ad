-- ===== src/Config/Gitlab.antt =====
-- The GitLab block of a configuration and its checks: `ValidateForServe` and what it calls,
-- internal/config/config.go. `regexp.Compile` is the parameter `compile_regexp`.
use express_send.Common.{
  ℕ, suc, ◌==◌, Bool, true, false, ◌&&◌, ◌||◌, not, if◌then◌else◌, Option, none, some, List, [],
  ◌∷◌, ◌++◌,
}
use express_send.Text.{Text, codes, eqb, lookup, is_some, cut_suffix, split}
use express_send.Text.Query.{is_alnum}
use express_send.Text.Sort.{sort_keys}
use express_send.Config.Chats.{sorted_map_keys}
use express_send.Gitlab.Route.Compile.{GitlabRoute, compile_pattern}
use express_send.Server.Auth.{is_empty}

-- `GitlabSenderYAMLConfig`; its `Events` are the fields `only` and `exclude`.
pub record GitlabSenderConfig : Type 0 where
  pub name : Text
  pub secret : Text
  pub chats : List Text
  pub only : List Text
  pub exclude : List Text
  pub error_events : List Text
  pub templates : List (Text × Text)
  pub template_files : List (Text × Text)
  pub routes : List GitlabRoute

-- The problems of a configuration, each an error, with the index of the sender first.
pub data GitlabProblem : Type 0 where
  no_senders : GitlabProblem
  no_secret no_targets : ℕ → GitlabProblem
  same_secret same_name : ℕ → ℕ → GitlabProblem
  invalid_key : ℕ → Text → Text → GitlabProblem
  in_both : ℕ → Text → GitlabProblem
  equivalent_keys : ℕ → Text → Text → GitlabProblem
  rule_without_chats : ℕ → ℕ → GitlabProblem
  invalid_event invalid_regex : ℕ → ℕ → Text → Text → GitlabProblem

abbrev pub when {ℓ} : {A : Type ℓ} → Bool → A → List A
when true p = p ∷ []
when false p = []

-- `validGitlabEventKey`: the expression `^[A-Za-z0-9_]+(\.([A-Za-z0-9_]+|\*))?$`.
unfoldable pub all_word : Text → Bool
unfolding is_alnum
all_word [] = true
all_word (c ∷ s) = (is_alnum c || (c == b'_')) && all_word s

abbrev is_word : Text → Bool
unfolding all_word
is_word s = not (is_empty s) && all_word s

unfoldable pub valid_gitlab_event_key : Text → Bool
unfolding is_word split
valid_gitlab_event_key key = elim (split key b'.') [
  | p ∷ [] ↦ is_word p
  | p ∷ q ∷ [] ↦ is_word p && (is_word q || eqb q (codes "*"))
  | _ ↦ false
]

-- The loop of `validateGitlabSenders` from sender `i` on, with the names and secrets seen before.
unfoldable pub check_senders :
    ℕ → List (Text × ℕ) → List (Text × ℕ) → List GitlabSenderConfig → List GitlabProblem
unfolding lookup
check_senders i names secrets [] = []
check_senders i names secrets (s ∷ senders) =
    let secrets' : List (Text × ℕ) =
      if eqb s.secret [] || is_some (lookup s.secret secrets)
      then secrets
      else (s.secret, i) ∷ secrets in
    let names' : List (Text × ℕ) =
      if eqb s.name [] || is_some (lookup s.name names) then names else (s.name, i) ∷ names in
    let rest = check_senders (suc i) names' secrets' senders in
    let used : List GitlabProblem = elim (lookup s.secret secrets) [
      | some first ↦ same_secret i first ∷ []
      | none ↦ []
    ] in
    let named : List GitlabProblem = elim (lookup s.name names) [
      | some first ↦ same_name i first ∷ []
      | none ↦ []
    ] in
    (if eqb s.secret [] then no_secret i ∷ [] else used)
    ++ (when (is_empty s.chats && is_empty s.routes) (no_targets i)
        ++ ((if eqb s.name [] then [] else named) ++ rest))

unfoldable pub validate_gitlab_senders : List GitlabSenderConfig → List GitlabProblem
unfolding check_senders
validate_gitlab_senders senders =
    when (is_empty senders) no_senders ++ check_senders 0 [] [] senders

-- `checkKeys`.
unfoldable pub check_keys : ℕ → Text → List Text → List GitlabProblem
unfolding valid_gitlab_event_key
check_keys i path [] = []
check_keys i path (e ∷ entries) =
    when (not (valid_gitlab_event_key e)) (invalid_key i path e) ++ check_keys i path entries

-- The loop over the keys that both maps define.
unfoldable pub check_overlap : ℕ → List (Text × Text) → List Text → List GitlabProblem
unfolding lookup
check_overlap i files [] = []
check_overlap i files (k ∷ keys) =
    when (is_some (lookup k files)) (in_both i k) ++ check_overlap i files keys

-- `gitlabCatchAllKind`.
unfoldable pub gitlab_catch_all_kind : Text → Option Text
unfolding cut_suffix split
gitlab_catch_all_kind key = elim (cut_suffix key (codes ".*")) [
  | some k ↦ some k
  | none ↦ elim (split key b'.') [ _ ∷ _ ∷ _ ↦ none | _ ↦ some key ]
]

-- The loop over the catch-all keys, with the form of each kind seen before.
unfoldable pub check_catch_all : ℕ → List (Text × Text) → List Text → List GitlabProblem
unfolding gitlab_catch_all_kind lookup
check_catch_all i forms [] = []
check_catch_all i forms (k ∷ keys) =
    let skipped = check_catch_all i forms keys in
    elim (gitlab_catch_all_kind k) [
      | none ↦ skipped
      | some canon ↦
          let kept = check_catch_all i ((canon, k) ∷ forms) keys in
          elim (lookup canon forms) [
            | none ↦ kept
            | some prev ↦ if not (eqb prev k) then equivalent_keys i prev k ∷ skipped else kept
          ]
    ]

module _ {Regexp : Type 0} (compile_regexp : Text → Option Regexp) where
  -- `gitlabRoutePatternError`, which reads a pattern as the server does.
  unfoldable pub gitlab_route_pattern_error : Text → Bool
  unfolding compile_pattern
  gitlab_route_pattern_error pattern = not (is_some (compile_pattern compile_regexp pattern))

  -- The loops over the patterns of a selector, the selectors of a rule and the rules.
  unfoldable pub check_patterns : ℕ → ℕ → Text → List Text → List GitlabProblem
  unfolding gitlab_route_pattern_error valid_gitlab_event_key
  check_patterns i j selector [] = []
  check_patterns i j selector (p ∷ ps) =
      (if eqb selector (codes "event")
        then when (not (valid_gitlab_event_key p)) (invalid_event i j selector p)
        else when (gitlab_route_pattern_error p) (invalid_regex i j selector p))
      ++ check_patterns i j selector ps

  unfoldable pub check_selectors : ℕ → ℕ → List (Text × List Text) → List GitlabProblem
  unfolding check_patterns
  check_selectors i j [] = []
  check_selectors i j ((selector, patterns) ∷ m) =
      check_patterns i j selector patterns ++ check_selectors i j m

  unfoldable pub validate_gitlab_routes : ℕ → ℕ → List GitlabRoute → List GitlabProblem
  unfolding check_selectors sort_keys
  validate_gitlab_routes i j [] = []
  validate_gitlab_routes i j (r ∷ routes) =
      when (is_empty r.chats) (rule_without_chats i j)
      ++ (check_selectors i j (sort_keys r.match) ++ validate_gitlab_routes i (suc j) routes)

  unfoldable pub validate_gitlab_sender : ℕ → GitlabSenderConfig → List GitlabProblem
  unfolding check_keys check_overlap check_catch_all validate_gitlab_routes sorted_map_keys
  validate_gitlab_sender i s =
      let inline = sorted_map_keys s.templates in
      let files = sorted_map_keys s.template_files in
      check_keys i (codes "events.only") s.only
      ++ (check_keys i (codes "events.exclude") s.exclude
          ++ (check_keys i (codes "error_events") s.error_events
              ++ (check_keys i (codes "templates") inline
                  ++ (check_keys i (codes "template_files") files
                      ++ (check_overlap i s.template_files inline
                          ++ (check_catch_all i [] (inline ++ files)
                              ++ validate_gitlab_routes i 0 s.routes))))))

  -- The loop of `ValidateForServe` over the senders.
  unfoldable pub first_problem : ℕ → List GitlabSenderConfig → Option GitlabProblem
  unfolding validate_gitlab_sender
  first_problem i [] = none
  first_problem i (s ∷ senders) =
      let rest = first_problem (suc i) senders in
      elim (validate_gitlab_sender i s) [ p ∷ _ ↦ some p | [] ↦ rest ]

  unfoldable pub validate_for_serve : List GitlabSenderConfig → Option GitlabProblem
  unfolding first_problem validate_gitlab_senders
  validate_for_serve senders = elim (validate_gitlab_senders senders) [
    | p ∷ _ ↦ some p
    | [] ↦ first_problem 0 senders
  ]
