-- ===== src/Serve/Sender/Laws.antt =====
-- What the builder of the senders guarantees to the handler.
use express_send.Common.{
  ◌≡◌, ◌≢◌, refl, sym, subst, ◌⊎◌, inl, inr, Bool-cases, Option-cases, Result-cases, >>=-eq-ok,
  ok-injective, ◌&&◌, not, Bool, true, none, some, List, [], ◌∷◌, ◌++◌, All, All-append, ok,
}
use express_send.Text.{Text, eqb, lookup}
use express_send.Text.Laws.{eqb_iff, eqb_refl, neq_of_eqb}
use express_send.Config.Chats.{Chats, resolve_chat_ref}
use express_send.Config.Gitlab.{GitlabSenderConfig}
use express_send.Server.Types.{is_uuid}
use express_send.Server.Auth.{is_empty}
use express_send.Gitlab.Route.Compile.{GitlabRoute}
use express_send.Gitlab.Handler.{GitlabTarget, conflicts}
use express_send.Gitlab.Handler.Laws.{IsScopeTarget}
use express_send.Serve.Sender.{
  Targets, add_target, add_targets, add_routes, rewrite_chats, rewrite_routes, build_scope,
}

pub All-mono {ℓ} :
    {A : Type ℓ} (P Q : A → Type 0) (xs : List A) → ((x : A) → P x → Q x) → All P xs → All Q xs
All-mono P Q [] f h = tt
All-mono P Q (x ∷ xs) f (p, h) = (f x p, All-mono P Q xs f h)

-- A rule whose chats all have a property.
abbrev pub RuleWith : (Text → Type 0) → GitlabRoute → Type 0
RuleWith P r = All P r.chats

module _ (chats : Chats) (multi_bot : Bool) where
  -- Every delivery target is in the scope, and with several bots every entry of the scope has one.
  unfoldable pub Good : Targets → Type 0
  Good t =
      All (IsScopeTarget t.scope) t.targets × (multi_bot ≡ true → All (λ e. e.1.bot ≢ []) t.scope)

  pub Extends : Targets → Targets → Type 0
  Extends t t' = (x : Text) → IsScopeTarget t.scope x → IsScopeTarget t'.scope x

  place : (t : Targets) (canonical raw bot : Text) → Targets
  place t canonical raw bot = record {
    scope = (canonical, record { target = raw; bot = bot }) ∷ t.scope;
    targets = t.targets ++ raw ∷ [];
  }

  add_target_cases :
      (t t' : Targets) (raw : Text)
      → add_target chats multi_bot t raw ≡ ok t'
      → (r : Text × Text) × (multi_bot ≡ true → r.1 ≢ [])
        × (((prev : GitlabTarget) × (lookup r.0 t.scope ≡ some prev)
              × (prev.target ≡ raw)
              × (t ≡ t'))
            ⊎ ((lookup r.0 t.scope ≡ none) × (place t r.0 raw r.1 ≡ t')))
  unfolding add_target place
  add_target_cases t t' raw h = elim (Result-cases (resolve_chat_ref chats raw)) [
    | inr (why, e) ↦ absurd (let bad = rw (e, add_target) at h in cc)
    | inl (r, e) ↦ elim (Bool-cases (multi_bot && is_uuid raw)) [
      | inl u ↦ absurd (let bad = rw (e, u, add_target) at h in cc)
      | inr u ↦ elim (Bool-cases (multi_bot && eqb r.1 [])) [
        | inl b ↦ absurd (let bad = rw (e, u, b, add_target) at h in cc)
        | inr b ↦
            let bound : multi_bot ≡ true → r.1 ≢ [] = λ multi. neq_of_eqb r.1 [] (rw multi at b) in
            elim (Option-cases (lookup r.0 t.scope)) [
              | inl free ↦
                  (r, bound, inr (free, ok-injective (rw (e, u, b, free, add_target) at h)))
              | inr (prev, taken) ↦ elim (Bool-cases (eqb prev.target raw)) [
                | inr other ↦ absurd (let bad = rw (e, u, b, taken, other, add_target) at h in cc)
                | inl same ↦ (
                  r,
                  bound,
                  inl (
                    prev,
                    taken,
                    (eqb_iff prev.target raw).0 same,
                    ok-injective (rw (e, u, b, taken, same, add_target) at h),
                  ),
                )
              ]
            ]
      ]
    ]
  ]

  place-Extends :
      (t : Targets) (canonical raw bot : Text)
      → lookup canonical t.scope ≡ none
      → Extends t (place t canonical raw bot)
  unfolding Extends place
  place-Extends t canonical raw bot free x (c, entry, at_c, same) =
      elim (Bool-cases (eqb canonical c)) [
        | inl e ↦ absurd (let bad = rw ((eqb_iff canonical c).0 e) at free in cc)
        | inr e ↦ (c, entry, unfold lookup in rw e at_c, same)
      ]

  place_in :
      (t : Targets) (canonical raw bot : Text) → IsScopeTarget (place t canonical raw bot).scope raw
  unfolding place
  place_in t canonical raw bot = (
    canonical,
    record { target = raw; bot = bot },
    unfold lookup in rw (eqb_refl canonical) refl,
    refl,
  )

  place-Good :
      (t : Targets) (canonical raw bot : Text)
      → lookup canonical t.scope ≡ none
      → (multi_bot ≡ true → bot ≢ [])
      → Good t
      → Good (place t canonical raw bot)
  unfolding place Good
  place-Good t canonical raw bot free bound (inside, bots) = (
    All-append (IsScopeTarget (place t canonical raw bot).scope) t.targets (raw ∷ [])
        (All-mono (IsScopeTarget t.scope) (IsScopeTarget (place t canonical raw bot).scope)
          t.targets (unfold Extends in place-Extends t canonical raw bot free) inside)
        (place_in t canonical raw bot, tt),
    λ multi. (bound multi, bots multi),
  )

  -- What holds of a state and the next one, with the chats that were added.
  Added : Targets → Targets → List Text → Type 0
  Added t t' raws = Good t' × Extends t t' × All (IsScopeTarget t'.scope) raws

  add_target-Added :
      (t t' : Targets) (raw : Text)
      → Good t
      → add_target chats multi_bot t raw ≡ ok t'
      → Added t t' (raw ∷ [])
  unfolding Added
  add_target-Added t t' raw good h =
      let (r, bound, found) = add_target_cases t t' raw h in
      elim found [
        | inl (prev, taken, same, stays) ↦
            subst (λ x. Good x × Extends t x × All (IsScopeTarget x.scope) (raw ∷ [])) stays
              (good, unfold Extends in λ x k. k, ((r.0, prev, taken, sym same), tt))
        | inr (free, placed) ↦
            subst (λ x. Good x × Extends t x × All (IsScopeTarget x.scope) (raw ∷ [])) placed
              (
                place-Good t r.0 raw r.1 free bound good,
                place-Extends t r.0 raw r.1 free,
                (place_in t r.0 raw r.1, tt),
              )
      ]

  add_targets-Added :
      (raws : List Text) (t t' : Targets)
      → Good t
      → add_targets chats multi_bot t raws ≡ ok t'
      → Added t t' raws
  unfolding add_targets Added Extends
  add_targets-Added [] t t' good h = subst (λ x. Added t x []) (ok-injective h) (good, λ x k. k, tt)
  add_targets-Added (raw ∷ raws) t t' good h =
      let (t1, e1, h1) = >>=-eq-ok (add_target chats multi_bot t raw) _ h in
      let (good1, ext1, (in1, _)) = add_target-Added t t1 raw good e1 in
      let (good2, ext2, in2) = add_targets-Added raws t1 t' good1 h1 in
      (good2, λ x k. ext2 x (ext1 x k), (ext2 raw in1, in2))

  abbrev nothing : Targets
  nothing = record { scope = []; targets = [] }

  nothing-Good : Good nothing
  unfolding Good
  nothing-Good = (tt, λ _. tt)

  Added-Good : (t t' : Targets) (raws : List Text) → Added t t' raws → Good t'
  unfolding Added
  Added-Good t t' raws added = added.0

  add_routes-Added :
      (routes : List GitlabRoute) (t t' : Targets)
      → Good t
      → add_routes chats multi_bot t routes ≡ ok t'
      → Good t' × Extends t t' × All (RuleWith (IsScopeTarget t'.scope)) routes
  unfolding add_routes Added Extends
  add_routes-Added [] t t' good h =
      subst (λ x. Good x × Extends t x × All (RuleWith (IsScopeTarget x.scope)) []) (ok-injective h)
        (good, λ x k. k, tt)
  add_routes-Added (r ∷ routes) t t' good h =
      let (t1, e1, h1) = >>=-eq-ok (add_targets chats multi_bot t r.chats) _ h in
      let (good1, ext1, in1) = add_targets-Added r.chats t t1 good e1 in
      let (good2, ext2, in2) = add_routes-Added routes t1 t' good1 h1 in
      (
        good2,
        λ x k. ext2 x (ext1 x k),
        (All-mono (IsScopeTarget t1.scope) (IsScopeTarget t'.scope) r.chats ext2 in1, in2),
      )

  rewrite_chats-in :
      (scope : List (Text × GitlabTarget)) (raws targets : List Text)
      → rewrite_chats chats multi_bot scope raws ≡ ok targets
      → All (IsScopeTarget scope) targets
  unfolding rewrite_chats
  rewrite_chats-in scope [] targets h = subst (All (IsScopeTarget scope)) (ok-injective h) tt
  rewrite_chats-in scope (raw ∷ raws) targets h = elim (Result-cases (resolve_chat_ref chats raw)) [
    | inr (why, e) ↦ absurd (let bad = rw (e, rewrite_chats) at h in cc)
    | inl (r, e) ↦ elim (Option-cases (lookup r.0 scope)) [
      | inl out ↦ absurd (let bad = rw (e, out, rewrite_chats) at h in cc)
      | inr (entry, found) ↦ elim (Bool-cases (conflicts entry raw r.1)) [
        | inl c ↦ absurd (let bad = rw (e, found, c, rewrite_chats) at h in cc)
        | inr c ↦
            let (rest, e2, h2) =
              >>=-eq-ok (rewrite_chats chats multi_bot scope raws) _
                (rw (e, found, c, rewrite_chats) at h) in
            subst (All (IsScopeTarget scope)) (ok-injective h2)
              ((r.0, entry, found, refl), rewrite_chats-in scope raws rest e2)
      ]
    ]
  ]

  rewrite_routes-in :
      (scope : List (Text × GitlabTarget)) (routes rules : List GitlabRoute)
      → rewrite_routes chats multi_bot scope routes ≡ ok rules
      → All (RuleWith (IsScopeTarget scope)) rules
  unfolding rewrite_routes
  rewrite_routes-in scope [] rules h =
      subst (All (RuleWith (IsScopeTarget scope))) (ok-injective h) tt
  rewrite_routes-in scope (r ∷ routes) rules h =
      let (targets, e1, h1) = >>=-eq-ok (rewrite_chats chats multi_bot scope r.chats) _ h in
      let (rest, e2, h2) = >>=-eq-ok (rewrite_routes chats multi_bot scope routes) _ h1 in
      subst (All (RuleWith (IsScopeTarget scope))) (ok-injective h2)
        (rewrite_chats-in scope r.chats targets e1, rewrite_routes-in scope routes rest e2)

  -- The scope, targets and rules of a sender that is built.
  pub build_scope-Good :
      (sn : GitlabSenderConfig) (built : Targets × List GitlabRoute)
      → build_scope chats multi_bot sn ≡ ok built
      → Good built.0 × All (RuleWith (IsScopeTarget built.0.scope)) built.1
  unfolding build_scope
  build_scope-Good sn built h = elim (Bool-cases (not (is_empty sn.chats))) [
    | inl e ↦
        let (t, e1, h1) =
          >>=-eq-ok (add_targets chats multi_bot nothing sn.chats) _ (rw (e, build_scope) at h) in
        let (rules, e2, h2) = >>=-eq-ok (rewrite_routes chats multi_bot t.scope sn.routes) _ h1 in
        let good =
          Added-Good nothing t sn.chats (add_targets-Added sn.chats nothing t nothing-Good e1) in
        subst (λ x. Good x.0 × All (RuleWith (IsScopeTarget x.0.scope)) x.1) (ok-injective h2)
          (good, rewrite_routes-in t.scope sn.routes rules e2)
    | inr e ↦
        let (t, e1, h1) =
          >>=-eq-ok (add_routes chats multi_bot nothing sn.routes) _ (rw (e, build_scope) at h) in
        let (good, _, inside) = add_routes-Added sn.routes nothing t nothing-Good e1 in
        subst (λ x. Good x.0 × All (RuleWith (IsScopeTarget x.0.scope)) x.1) (ok-injective h1)
          (good, inside)
  ]
