-- ===== src/Server/Callbacks/Laws.antt =====
-- Which events a callback names, and when its handlers are called.
use express_send.Common.{
  Bool, true, false, ◌&&◌, ◌||◌, not, Option, none, some, List, [], ◌∷◌, ◌++◌, ◌≡◌, ◌≢◌, ◌⊎◌, inl,
  inr, refl, sym, ap, ◌∙◌, arith, Bool-cases, Option-cases, All, eq_of_some,
}
use express_send.Text.{Text, codes, eqb, contains, lookup, cut_prefix}
use express_send.Text.Laws.{eqb_iff, cut_prefix-append}
use express_send.Server.Callbacks.{
  system_event_map, parse_event_type, RouterRule, MatchedRule, CallbackPayload, route,
  handle_command, listens,
}

-- An entry of the table names the event that its key has after the prefix.
abbrev Strips : Text × Text → Type 0
Strips entry = cut_prefix entry.0 (codes "system:") ≡ some entry.1

lookup-Strips :
    (m : List (Text × Text)) (key ev : Text)
    → All Strips m
    → lookup key m ≡ some ev
    → cut_prefix key (codes "system:") ≡ some ev
unfolding lookup
lookup-Strips [] key ev all h = cc
lookup-Strips ((j, v) ∷ m) key ev all h = elim (Bool-cases (eqb j key)) [
  | inl same ↦
      let key_is = (eqb_iff j key).0 same in
      let at : ◌≡◌ {A = Option Text} (some v) (some ev) = rw (same, lookup) at h in
      rw key_is at (all.0 ∙ at)
  | inr other ↦ lookup-Strips m key ev all.1 (rw (other, lookup) at h)
]

system_event_map-Strips : All Strips system_event_map
unfolding cut_prefix
system_event_map-Strips = (
  refl,
  (
    refl,
    (
      refl,
      (
        refl,
        (refl, (refl, (refl, (refl, (refl, (refl, (refl, (refl, (refl, (refl, (refl, tt))))))))))),
      ),
    ),
  ),
)

parse_event_type-stripped :
    (s e : Text) → cut_prefix s (codes "system:") ≡ some e → parse_event_type s ≡ e
unfolding parse_event_type
parse_event_type-stripped s e cut = elim (Option-cases (lookup s system_event_map)) [
  | inl unknown ↦ rw (cut, unknown, parse_event_type) refl
  | inr (ev, known) ↦
      let same : ev ≡ e =
        eq_of_some
          (sym (lookup-Strips system_event_map s ev system_event_map-Strips known) ∙ cut) in
      rw (cut, known, parse_event_type) same
]

-- A system command names the event after its prefix, whether the table knows it or not; any other
-- command is a message.
pub parse_event_type-names :
    (s : Text)
    → ((e : Text) → s ≡ codes "system:" ++ e → parse_event_type s ≡ e)
      × (cut_prefix s (codes "system:") ≡ none → parse_event_type s ≡ codes "message")
unfolding parse_event_type
parse_event_type-names s = (
  λ e same.
      parse_event_type-stripped s e
        (ap (λ t. cut_prefix t (codes "system:")) same ∙ cut_prefix-append (codes "system:") e),
  λ other. rw (other, parse_event_type) refl,
)

same_bot : (a b : Text) → a ≢ [] → (not (eqb a []) && not (eqb a b)) ≡ false → eqb a b ≡ true
same_bot a b ne h = ground (arith, eqb_iff a [])

-- Any handler that a callback calls is called for a payload with its required fields, and, where
-- a token was verified, for the bot of that token only.
pub handle_command-verified :
    {Handler : Type 0} (rules : List (RouterRule Handler))
    (unmarshal : Text → Option CallbackPayload) (jwt_aud body : Text)
    → (handle_command rules unmarshal jwt_aud (some body)).1 ≢ []
    → (payload : CallbackPayload) × (unmarshal body ≡ some payload)
      × (payload.bot_id ≢ [])
      × (payload.sync_id ≢ [])
      × (payload.group_chat_id ≢ [])
      × (jwt_aud ≢ [] → payload.bot_id ≡ jwt_aud)
unfolding handle_command
handle_command-verified rules unmarshal jwt_aud body called = elim (Option-cases (unmarshal body)) [
  | inl e ↦ absurd (called (rw (e, handle_command) refl))
  | inr (p, e) ↦ elim (Bool-cases (eqb p.bot_id [] || eqb p.sync_id [])) [
    | inl b ↦ absurd (called (rw (e, b, handle_command) refl))
    | inr b ↦ elim (Bool-cases (eqb p.group_chat_id [])) [
      | inl g ↦ absurd (called (rw (e, b, g, handle_command) refl))
      | inr g ↦ elim (Bool-cases (not (eqb jwt_aud []) && not (eqb jwt_aud p.bot_id))) [
        | inl j ↦ absurd (called (rw (e, b, g, j, handle_command) refl))
        | inr j ↦ (
          p,
          e,
          (λ x. let t = (eqb_iff p.bot_id []).1 x in ground arith),
          (λ x. let t = (eqb_iff p.sync_id []).1 x in ground arith),
          (λ x. let t = (eqb_iff p.group_chat_id []).1 x in ground arith),
          λ ne. sym ((eqb_iff jwt_aud p.bot_id).0 (same_bot jwt_aud p.bot_id ne j)),
        )
      ]
    ]
  ]
]

-- The rules that listen to an event, in their order.
pub data Routed {Handler : Type 0} (event : Text)
    : List (RouterRule Handler) → List (MatchedRule Handler) → Type 0 where
  done : Routed event [] []
  called :
      {rule : RouterRule Handler} {m : MatchedRule Handler} {rules : List (RouterRule Handler)}
      {ms : List (MatchedRule Handler)}
      → (contains event rule.events ≡ true) ⊎ (contains (codes "*") rule.events ≡ true)
      → m ≡ record { handler = rule.handler; async = rule.async }
      → Routed event rules ms
      → Routed event (rule ∷ rules) (m ∷ ms)
  passed :
      {rule : RouterRule Handler} {rules : List (RouterRule Handler)}
      {ms : List (MatchedRule Handler)}
      → contains event rule.events ≡ false
      → contains (codes "*") rule.events ≡ false
      → Routed event rules ms
      → Routed event (rule ∷ rules) ms

listens-contains :
    (event : Text) (events : List Text)
    → listens event events ≡ (contains event events || contains (codes "*") events)
unfolding listens contains
listens-contains event [] = refl
listens-contains event (e ∷ events) = ground (arith, listens-contains event events)

either : (a b : Bool) → (a || b) ≡ true → (a ≡ true) ⊎ (b ≡ true)
either true b h = inl refl
either false b h = inr h

-- An event goes to the rules whose list has it or "*", each once and in the order of the rules.
pub route-Routed :
    {Handler : Type 0} (rules : List (RouterRule Handler)) (event : Text)
    → Routed event rules (route rules event)
unfolding route
route-Routed [] event = done
route-Routed (rule ∷ rules) event =
    let same = listens-contains event rule.events in
    elim (Bool-cases (listens event rule.events)) [
      | inl listening ↦
          rw (listening, route)
            (called (either _ _ (sym same ∙ listening)) refl (route-Routed rules event))
      | inr deaf ↦
          rw (deaf, route) (passed (ground arith) (ground arith) (route-Routed rules event))
    ]
