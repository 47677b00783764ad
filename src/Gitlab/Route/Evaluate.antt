-- ===== src/Gitlab/Route/Evaluate.antt =====
-- What the rule scan collects: the chats of the rules that fire, each once.
use mathlib.Core.Bool.{or-false}
use express_send.Common.{
  ℕ, ◌+◌, Bool, true, false, ◌&&◌, ◌||◌, not, if◌then◌else◌, List, [], ◌∷◌, ◌++◌, ◌≡◌, refl, sym,
  ◌∙◌, inl, inr, ◌↔◌, arith, Bool-cases,
}
use express_send.Text.{Text, eqb, contains}
use express_send.Text.Sets.{Distinct, Distinct-concat, contains-add, already, contains-concat}
use express_send.Gitlab.Payload.{GitlabView}
use express_send.Gitlab.Route.{
  CompiledRoute, route_matches, Collected, add_chat, add_chats, evaluate_from, evaluate_routes,
}

-- The set of seen chats is the set of the chats collected, and no chat is collected twice.
record Tracks (s : Collected) : Type 0 where
  distinct : Distinct s.chats
  same : (c : Text) → contains c s.seen ≡ contains c s.chats

add_chat-Tracks : (s : Collected) (c : Text) → Tracks s → Tracks (add_chat s c)
unfolding add_chat
add_chat-Tracks s c t = elim (Bool-cases (contains c s.seen)) [
  | inl old ↦ rw old t
  | inr new ↦ rw new (record {
    distinct = Distinct-concat s.chats c t.distinct (sym (t.same c) ∙ new);
    same = λ a. contains-add a c s.seen s.chats (t.same a);
  })
]

contains-add_chat :
    (s : Collected) (a c : Text)
    → Tracks s
    → contains a (add_chat s c).chats ≡ (contains a s.chats || eqb c a)
unfolding add_chat
contains-add_chat s a c t = elim (Bool-cases (contains c s.seen)) [
  | inl old ↦ rw old (already a c s.chats (sym (t.same c) ∙ old))
  | inr new ↦ rw new (contains-concat a c s.chats)
]

add_chats-Tracks : (cs : List Text) (s : Collected) → Tracks s → Tracks (add_chats s cs)
unfolding add_chats
add_chats-Tracks [] s t = t
add_chats-Tracks (c ∷ cs) s t = add_chats-Tracks cs (add_chat s c) (add_chat-Tracks s c t)

contains-add_chats :
    (cs : List Text) (s : Collected) (a : Text)
    → Tracks s
    → contains a (add_chats s cs).chats ≡ (contains a s.chats || contains a cs)
unfolding add_chats contains
contains-add_chats [] s a t = sym (or-false (contains a s.chats))
contains-add_chats (c ∷ cs) s a t = ground (
  arith,
  contains-add_chats cs (add_chat s c) a (add_chat-Tracks s c t),
  contains-add_chat s a c t,
)

no_chats-Tracks : Tracks (record { seen = []; chats = [] })
no_chats-Tracks = record { distinct = tt; same = λ c. refl }

-- A rule fires when it matches and no matching rule above it stops the scan.
module _ {Regexp : Type 0} (match_string : Regexp → Text → Bool) (view : GitlabView) where
  pub data Fires : List (CompiledRoute Regexp) → CompiledRoute Regexp → Type 0 where
    here :
        {r : CompiledRoute Regexp} {rs : List (CompiledRoute Regexp)}
        → route_matches match_string view r ≡ true
        → Fires (r ∷ rs) r
    later :
        {x r : CompiledRoute Regexp} {rs : List (CompiledRoute Regexp)}
        → (route_matches match_string view x && x.stop) ≡ false
        → Fires rs r
        → Fires (x ∷ rs) r

  -- A chat that some rule of the list that fires names.
  abbrev pub Targets : List (CompiledRoute Regexp) → Text → Type 0
  Targets rs a = (r : CompiledRoute Regexp) × Fires rs r × (contains a r.chats ≡ true)

  evaluate_from-Distinct :
      (rs : List (CompiledRoute Regexp)) (i : ℕ) (s : Collected) (m : Bool) (ns : List ℕ)
      → Tracks s
      → Distinct (evaluate_from match_string view i s m ns rs).chats
  unfolding evaluate_from
  evaluate_from-Distinct [] i s m ns t = t.distinct
  evaluate_from-Distinct (r ∷ rs) i s m ns t =
      let t' = add_chats-Tracks r.chats s t in
      ground (
        arith,
        t'.distinct,
        evaluate_from-Distinct rs (i + 1) s m ns t,
        evaluate_from-Distinct rs (i + 1) (add_chats s r.chats) true (ns ++ i ∷ []) t',
      )

  -- The same as a test.
  targeted : List (CompiledRoute Regexp) → Text → Bool
  targeted [] a = false
  targeted (r ∷ rs) a =
      let rest = targeted rs a in
      if route_matches match_string view r then contains a r.chats || (not r.stop && rest) else rest

  targeted_sound :
      (rs : List (CompiledRoute Regexp)) (a : Text) → targeted rs a ≡ true → Targets rs a
  unfolding targeted
  targeted_sound [] a h = cc
  targeted_sound (r ∷ rs) a h = elim (Bool-cases (route_matches match_string view r)) [
    | inl fits ↦ elim (Bool-cases (contains a r.chats)) [
      | inl at ↦ (r, here fits, at)
      | inr other ↦
          let (x, f, at) = targeted_sound rs a (ground arith) in (x, later (ground arith) f, at)
    ]
    | inr misses ↦
        let (x, f, at) = targeted_sound rs a (ground arith) in (x, later (ground arith) f, at)
  ]

  targeted_complete :
      {rs : List (CompiledRoute Regexp)} {r : CompiledRoute Regexp} (a : Text)
      → Fires rs r
      → contains a r.chats ≡ true
      → targeted rs a ≡ true
  unfolding targeted
  targeted_complete a (here fits) h = ground arith
  targeted_complete a (later goes_on f) h = ground (arith, targeted_complete a f h)

  contains-evaluate_from :
      (rs : List (CompiledRoute Regexp)) (i : ℕ) (s : Collected) (m : Bool) (ns : List ℕ) (a : Text)
      → Tracks s
      → contains a (evaluate_from match_string view i s m ns rs).chats
        ≡ (contains a s.chats || targeted rs a)
  unfolding evaluate_from targeted
  contains-evaluate_from [] i s m ns a t = sym (or-false (contains a s.chats))
  contains-evaluate_from (r ∷ rs) i s m ns a t =
      let t' = add_chats-Tracks r.chats s t in
      let s' = add_chats s r.chats in
      ground (
        arith,
        contains-add_chats r.chats s a t,
        contains-evaluate_from rs (i + 1) s m ns a t,
        contains-evaluate_from rs (i + 1) s' true (ns ++ i ∷ []) a t',
      )

  -- The event goes to no chat twice.
  pub evaluate_routes-Distinct :
      (rs : List (CompiledRoute Regexp)) → Distinct (evaluate_routes match_string view rs).chats
  unfolding evaluate_routes
  evaluate_routes-Distinct rs = evaluate_from-Distinct rs 0 _ false [] no_chats-Tracks

  -- A chat receives the event exactly when a rule that fires names it: a rule that matches, with
  -- no matching rule above it that stops the scan.
  pub evaluate_routes_iff :
      (rs : List (CompiledRoute Regexp)) (a : Text)
      → (contains a (evaluate_routes match_string view rs).chats ≡ true) ↔ Targets rs a
  unfolding evaluate_routes
  evaluate_routes_iff rs a =
      let eq = contains-evaluate_from rs 0 _ false [] a no_chats-Tracks in
      (
        λ h. targeted_sound rs a (unfold contains in (sym eq ∙ h)),
        λ (r, f, at). eq ∙ unfold contains in (targeted_complete a f at),
      )
