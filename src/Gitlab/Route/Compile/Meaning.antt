-- ===== src/Gitlab/Route/Compile/Meaning.antt =====
-- What a compiled rule means in terms of the configured one.
use express_send.Common.{
  ℕ, ◌+◌, Bool, true, false, ◌&&◌, ◌||◌, if◌then◌else◌, Option, none, some, List, [], ◌∷◌, ◌≡◌,
  refl, ◌∙◌, arith, Bool-cases, Option-cases, ok, >>=-eq-ok, ok-injective, subst, inl, inr,
}
use express_send.Text.{Text, codes, eqb}
use express_send.Gitlab.Payload.{GitlabView}
use express_send.Gitlab.Filter.{event_matches}
use express_send.Gitlab.Glob.{glob_match}
use express_send.Gitlab.Route.{
  PatternMatcher, CompiledCondition, CompiledRoute, resolve_selector, matches, any_matcher,
  condition_matches, cond_holds, all_hold, route_matches,
}
use express_send.Text.Sort.{insert_key, sort_keys}
use express_send.Gitlab.Route.Compile.{
  GitlabRoute, is_slashed, between_slashes, compile_pattern, compile_patterns, compile_cond,
  compile_conds, compile_from, compile_gitlab_routes,
}

module _ {Regexp : Type 0} (compile_regexp : Text → Option Regexp)
    (match_string : Regexp → Text → Bool) where
  -- A configured pattern on a value: a regular expression between slashes, else a glob.
  unfoldable pub pattern_fits : Text → Text → Bool
  pattern_fits pattern value =
      if is_slashed pattern
      then elim (compile_regexp (between_slashes pattern)) [
        | none ↦ false
        | some re ↦ match_string re value
      ]
      else glob_match pattern value

  unfoldable pub some_pattern_fits : Text → List Text → Bool
  some_pattern_fits v [] = false
  some_pattern_fits v (p ∷ ps) = pattern_fits p v || some_pattern_fits v ps

  unfoldable pub some_value_fits : List Text → List Text → Bool
  some_value_fits [] ps = false
  some_value_fits (v ∷ vs) ps = some_pattern_fits v ps || some_value_fits vs ps

  -- One entry of `match` on an event.
  unfoldable pub entry_holds : GitlabView → Text × List Text → Bool
  entry_holds view (selector, patterns) =
      if eqb selector (codes "event")
      then event_matches view.kind view.event_key patterns
      else some_value_fits (resolve_selector view selector) patterns

  unfoldable pub entries_hold : GitlabView → List (Text × List Text) → Bool
  entries_hold view [] = true
  entries_hold view (e ∷ m) = entry_holds view e && entries_hold view m

  compile_pattern-matches :
      (p : Text) (m : PatternMatcher Regexp) (v : Text)
      → compile_pattern compile_regexp p ≡ some m
      → matches match_string m v ≡ pattern_fits p v
  unfolding compile_pattern matches pattern_fits
  compile_pattern-matches p m v h = ground arith

  compile_patterns-cons :
      (i : ℕ) (sel p : Text) (ps : List Text) (ms : List (PatternMatcher Regexp))
      → compile_patterns compile_regexp i sel (p ∷ ps) ≡ ok ms
      → (m : PatternMatcher Regexp) × (rest : List (PatternMatcher Regexp)) × (compile_pattern
            compile_regexp p
          ≡ some m)
        × (compile_patterns compile_regexp i sel ps ≡ ok rest)
        × (m ∷ rest ≡ ms)
  unfolding compile_patterns
  compile_patterns-cons i sel p ps ms h = elim (Option-cases (compile_pattern compile_regexp p)) [
    | inl e ↦ absurd (let bad = rw (e, compile_patterns) at h in cc)
    | inr (m, e) ↦
        let (rest, e', last) =
          >>=-eq-ok (compile_patterns compile_regexp i sel ps) _ (rw (e, compile_patterns) at h) in
        (m, rest, e, e', cc)
  ]

  compile_patterns-any :
      (i : ℕ) (sel : Text) (ps : List Text) (ms : List (PatternMatcher Regexp)) (v : Text)
      → compile_patterns compile_regexp i sel ps ≡ ok ms
      → any_matcher match_string v ms ≡ some_pattern_fits v ps
  unfolding any_matcher some_pattern_fits
  compile_patterns-any i sel [] ms v h = unfold compile_patterns in ground arith
  compile_patterns-any i sel (p ∷ ps) ms v h =
      let (m, rest, e, e', whole) = compile_patterns-cons i sel p ps ms h in
      ground (arith, compile_pattern-matches p m v e, compile_patterns-any i sel ps rest v e')

  condition_matches-values :
      (vs : List Text) (ps : List Text) (ms : List (PatternMatcher Regexp))
      → ((v : Text) → any_matcher match_string v ms ≡ some_pattern_fits v ps)
      → condition_matches match_string vs ms ≡ some_value_fits vs ps
  unfolding condition_matches some_value_fits
  condition_matches-values [] ps ms h = refl
  condition_matches-values (v ∷ vs) ps ms h =
      ground (arith, h v, condition_matches-values vs ps ms h)

  compile_cond-holds :
      (i : ℕ) (entry : Text × List Text) (c : CompiledCondition Regexp) (view : GitlabView)
      → compile_cond compile_regexp i entry ≡ ok c
      → cond_holds match_string view c ≡ entry_holds view entry
  unfolding cond_holds entry_holds compile_cond
  compile_cond-holds i (sel, ps) c view h = elim (Bool-cases (eqb sel (codes "event"))) [
    | inl e ↦ ground arith
    | inr e ↦
        let (ms, e', last) =
          >>=-eq-ok (compile_patterns compile_regexp i sel ps) _ (rw (e, compile_cond) at h) in
        let same =
          condition_matches-values (resolve_selector view sel) ps ms
            (λ v. compile_patterns-any i sel ps ms v e') in
        subst (λ d. cond_holds match_string view d ≡ entry_holds view (sel, ps)) (ok-injective last)
          (rw e same)
  ]

  compile_conds-hold :
      (i : ℕ) (m : List (Text × List Text)) (cs : List (CompiledCondition Regexp))
      (view : GitlabView)
      → compile_conds compile_regexp i m ≡ ok cs
      → all_hold match_string view cs ≡ entries_hold view m
  unfolding compile_conds all_hold entries_hold
  compile_conds-hold i [] cs view h = ground arith
  compile_conds-hold i (entry ∷ m) cs view h =
      let (c, e, h') = >>=-eq-ok (compile_cond compile_regexp i entry) _ h in
      let (rest, e', last) = >>=-eq-ok (compile_conds compile_regexp i m) _ h' in
      ground (arith, compile_cond-holds i entry c view e, compile_conds-hold i m rest view e')

  entries_hold-insert_key :
      (view : GitlabView) (e : Text × List Text) (m : List (Text × List Text))
      → entries_hold view (insert_key e m) ≡ (entry_holds view e && entries_hold view m)
  unfolding entries_hold insert_key
  entries_hold-insert_key view e [] = refl
  entries_hold-insert_key view e (f ∷ m) = ground (arith, entries_hold-insert_key view e m)

  entries_hold-sort_keys :
      (view : GitlabView) (m : List (Text × List Text))
      → entries_hold view (sort_keys m) ≡ entries_hold view m
  unfolding entries_hold sort_keys
  entries_hold-sort_keys view [] = refl
  entries_hold-sort_keys view (e ∷ m) =
      entries_hold-insert_key view e (sort_keys m) ∙ rw (entries_hold-sort_keys view m)

  -- A configured rule and its compiled form name the same chats, stop alike, and match the same
  -- events: those on which every entry of `match` holds, in whatever order the map lists them.
  pub record Implements (r : GitlabRoute) (c : CompiledRoute Regexp) : Type 0 where
    pub chats_eq : c.chats ≡ r.chats
    pub stop_eq : c.stop ≡ r.stop
    pub match_eq :
        (view : GitlabView) → route_matches match_string view c ≡ entries_hold view r.match

  compiled-Implements :
      (i : ℕ) (r : GitlabRoute) (conds : List (CompiledCondition Regexp))
      → compile_conds compile_regexp i (sort_keys r.match) ≡ ok conds
      → Implements r (record { conds = conds; chats = r.chats; stop = r.stop })
  unfolding route_matches
  compiled-Implements i r conds e = record {
    chats_eq = refl;
    stop_eq = refl;
    match_eq = λ view.
        compile_conds-hold i (sort_keys r.match) conds view e ∙ entries_hold-sort_keys view r.match;
  }

  -- The rules correspond one to one, in order.
  pub data ImplementsAll : List GitlabRoute → List (CompiledRoute Regexp) → Type 0 where
    none_left : ImplementsAll [] []
    next_rule :
        {r : GitlabRoute} {c : CompiledRoute Regexp} {rs : List GitlabRoute}
        {cs : List (CompiledRoute Regexp)}
        → Implements r c
        → ImplementsAll rs cs
        → ImplementsAll (r ∷ rs) (c ∷ cs)

  compile_from-ImplementsAll :
      (i : ℕ) (rs : List GitlabRoute) (cs : List (CompiledRoute Regexp))
      → compile_from compile_regexp i rs ≡ ok cs
      → ImplementsAll rs cs
  unfolding compile_from
  compile_from-ImplementsAll i [] cs h = subst (ImplementsAll []) (ok-injective h) none_left
  compile_from-ImplementsAll i (r ∷ rs) cs h =
      let (conds, e, h') = >>=-eq-ok (compile_conds compile_regexp i (sort_keys r.match)) _ h in
      let (rest, e', last) = >>=-eq-ok (compile_from compile_regexp (i + 1) rs) _ h' in
      subst (ImplementsAll (r ∷ rs)) (ok-injective last) (
        next_rule (compiled-Implements i r conds e) (compile_from-ImplementsAll (i + 1) rs rest e'))

  -- If the rules compile, each compiled rule implements the configured one in its place.
  pub compile_gitlab_routes-ImplementsAll :
      (rs : List GitlabRoute) (cs : List (CompiledRoute Regexp))
      → compile_gitlab_routes compile_regexp rs ≡ ok cs
      → ImplementsAll rs cs
  unfolding compile_gitlab_routes
  compile_gitlab_routes-ImplementsAll rs cs h = compile_from-ImplementsAll 0 rs cs h
