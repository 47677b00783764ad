-- ===== src/Serve/BotSecrets/Laws.antt =====
-- Which secret the lookup has for an id.
use express_send.Common.{
  ◌≡◌, ◌≢◌, refl, sym, ap, ◌∙◌, subst, ◌⊎◌, inl, inr, Bool-cases, Option-cases, Result-cases,
  >>=-eq-ok, ok-injective, eq_of_some, true, false, some, Result, ok, List, [], ◌∷◌,
}
use mathlib.Core.List.{Memᴰ}
use mathlib.Core.List.Memᴰ.{head, tail}
use express_send.Text.{Text, eqb, lookup, map_set}
use express_send.Text.Laws.{eqb_iff, neq_of_eqb}
use express_send.Text.Maps.{lookup-map_set, lookup-map_set_other}
use express_send.Config.Types.{BotSettings, Config}
use express_send.Config.Bots.{Bots}
use express_send.Serve.BotSecrets.{
  SecretLookup, by_id, only, no_secrets, find_secret, cache_secrets, build_bot_secret_lookup,
}

module _ (resolved : Text → Result Text Text) where
  -- The bot has the id and a secret that resolves to `s`.
  pub Holds : Text → Text → BotSettings → Type 0
  Holds id s bot = (id ≢ []) × (bot.id ≡ id) × (bot.secret ≢ []) × (resolved bot.secret ≡ ok s)

  -- Some bot holds the secret.
  pub HeldIn : Text → Text → Bots → Type 0
  HeldIn id s bots = (p : Text × BotSettings) × Memᴰ p bots × Holds id s p.1

  -- What a step of the loop does.
  cache_secrets_step :
      (cache last : List (Text × Text)) (name : Text) (bot : BotSettings) (bots : Bots)
      → cache_secrets resolved cache ((name, bot) ∷ bots) ≡ ok last
      → (((bot.id ≡ []) ⊎ (bot.secret ≡ [])) × (cache_secrets resolved cache bots ≡ ok last))
        ⊎ ((s : Text) × Holds bot.id s bot
            × (cache_secrets resolved (map_set bot.id s cache) bots ≡ ok last))
  unfolding cache_secrets Holds
  cache_secrets_step cache last name bot bots h = elim (Bool-cases (eqb bot.id [])) [
    | inl e ↦ inl (inl ((eqb_iff bot.id []).0 e), rw e at h)
    | inr e ↦ elim (Bool-cases (eqb bot.secret [])) [
      | inl k ↦ inl (inr ((eqb_iff bot.secret []).0 k), rw (e, k) at h)
      | inr k ↦ elim (Result-cases (resolved bot.secret)) [
        | inr (why, r) ↦ absurd (let bad = rw (e, k, r) at h in cc)
        | inl (s, r) ↦
            inr
              (s, (neq_of_eqb bot.id [] e, refl, neq_of_eqb bot.secret [] k, r), rw (e, k, r) at h)
      ]
    ]
  ]

  no_more :
      (cache last : List (Text × Text)) → cache_secrets resolved cache [] ≡ ok last → cache ≡ last
  unfolding cache_secrets
  no_more cache last h = ok-injective h

  held_later :
      (id s : Text) (cache : List (Text × Text)) (p : Text × BotSettings) (bots : Bots)
      → (lookup id cache ≡ some s) ⊎ HeldIn id s bots
      → (lookup id cache ≡ some s) ⊎ HeldIn id s (p ∷ bots)
  unfolding HeldIn
  held_later id s cache p bots (inl before) = inl before
  held_later id s cache p bots (inr (q, at_q, held)) = inr (q, tail at_q, held)

  -- What the cache holds at the end was there before or is held by a bot.
  cache_secrets_sound :
      (cache last : List (Text × Text)) (bots : Bots) (id s : Text)
      → cache_secrets resolved cache bots ≡ ok last
      → lookup id last ≡ some s
      → (lookup id cache ≡ some s) ⊎ HeldIn id s bots
  cache_secrets_sound cache last [] id s h at_id =
      inl (subst (λ m. lookup id m ≡ some s) (sym (no_more cache last h)) at_id)
  cache_secrets_sound cache last ((name, bot) ∷ bots) id s h at_id =
      elim (cache_secrets_step cache last name bot bots h) [
        | inl (_, k) ↦
            held_later id s cache (name, bot) bots
              (cache_secrets_sound cache last bots id s k at_id)
        | inr (t, held, k) ↦
            elim (cache_secrets_sound (map_set bot.id t cache) last bots id s k at_id) [
              | inr more ↦ held_later id s cache (name, bot) bots (inr more)
              | inl found ↦ elim (Bool-cases (eqb bot.id id)) [
                | inl e ↦
                    let same = (eqb_iff bot.id id).0 e in
                    let value = eq_of_some (
                      sym (lookup-map_set bot.id t cache)
                      ∙ ap (λ x. lookup x (map_set bot.id t cache)) same
                      ∙ found) in
                    inr (
                      unfold HeldIn in
                      (
                        (name, bot),
                        head refl,
                        subst (λ x. Holds x s bot) same
                            (subst (λ x. Holds bot.id x bot) value held),
                      ))
                | inr e ↦ inl (sym (lookup-map_set_other bot.id id t cache e) ∙ found)
              ]
            ]
      ]

  -- A secret that is in the cache is replaced by others, never removed.
  cache_secrets-kept :
      (cache last : List (Text × Text)) (bots : Bots) (id s : Text)
      → cache_secrets resolved cache bots ≡ ok last
      → lookup id cache ≡ some s
      → (t : Text) × (lookup id last ≡ some t)
  cache_secrets-kept cache last [] id s h at_id =
      (s, subst (λ m. lookup id m ≡ some s) (no_more cache last h) at_id)
  cache_secrets-kept cache last ((name, bot) ∷ bots) id s h at_id =
      elim (cache_secrets_step cache last name bot bots h) [
        | inl (_, k) ↦ cache_secrets-kept cache last bots id s k at_id
        | inr (t, held, k) ↦ elim (Bool-cases (eqb bot.id id)) [
          | inl e ↦ cache_secrets-kept (map_set bot.id t cache) last bots id t k (
              subst (λ x. lookup x (map_set bot.id t cache) ≡ some t) ((eqb_iff bot.id id).0 e)
                (lookup-map_set bot.id t cache))
          | inr e ↦
              cache_secrets-kept (map_set bot.id t cache) last bots id s k
                (lookup-map_set_other bot.id id t cache e ∙ at_id)
        ]
      ]

  -- Every bot with an id and a secret is in the cache at the end.
  cache_secrets_complete :
      (cache last : List (Text × Text)) (bots : Bots) (id s : Text)
      → cache_secrets resolved cache bots ≡ ok last
      → HeldIn id s bots
      → (t : Text) × (lookup id last ≡ some t)
  unfolding HeldIn Holds
  cache_secrets_complete cache last [] id s h (p, at_p, held) = absurd (elim at_p [ ])
  cache_secrets_complete cache last ((name, bot) ∷ bots) id s h (p, head e0, held) =
      let (ne, same, secret, known) = subst (λ (q : Text × BotSettings). Holds id s q.1) e0 held in
      elim (cache_secrets_step cache last name bot bots h) [
        | inl (inl e, _) ↦ absurd (ne (sym same ∙ e))
        | inl (inr e, _) ↦ absurd (secret e)
        | inr (t, _, k) ↦ cache_secrets-kept (map_set bot.id t cache) last bots id t k (
            subst (λ x. lookup x (map_set bot.id t cache) ≡ some t) same
              (lookup-map_set bot.id t cache))
      ]
  cache_secrets_complete cache last ((name, bot) ∷ bots) id s h (p, tail more, held) =
      elim (cache_secrets_step cache last name bot bots h) [
        | inl (_, k) ↦ cache_secrets_complete cache last bots id s k (p, more, held)
        | inr (t, _, k) ↦
            cache_secrets_complete (map_set bot.id t cache) last bots id s k (p, more, held)
      ]

  -- The configuration gives the bot with the id the secret `s`: a bot of the map where the server
  -- has several, the only bot otherwise.
  pub IsConfigured : Config → Text → Text → Type 0
  IsConfigured c id s =
      ((c.multi_bot ≡ true) × HeldIn id s c.bots)
      ⊎ ((c.multi_bot ≡ false)
          × (c.bot_id ≡ id)
          × (c.bot_secret ≢ [])
          × (resolved c.bot_secret ≡ ok s))

  found_by_id :
      (cache : List (Text × Text)) (id s : Text)
      → find_secret (by_id cache) id ≡ ok s
      → lookup id cache ≡ some s
  unfolding find_secret
  found_by_id cache id s h = elim (Option-cases (lookup id cache)) [
    | inl e ↦ absurd (let bad = rw (e, find_secret) at h in cc)
    | inr (t, e) ↦ e ∙ ap some (ok-injective (rw (e, find_secret) at h))
  ]

  found_only :
      (own value id s : Text) → find_secret (only own value) id ≡ ok s → (own ≡ id) × (value ≡ s)
  unfolding find_secret
  found_only own value id s h = elim (Bool-cases (eqb own id)) [
    | inl e ↦ ((eqb_iff own id).0 e, ok-injective (rw e at h))
    | inr e ↦ absurd (let bad = rw e at h in cc)
  ]

  -- Which lookup a configuration gives.
  build_cases :
      (c : Config) (look : SecretLookup)
      → build_bot_secret_lookup resolved c ≡ ok look
      → ((c.multi_bot ≡ true)
          × ((cache : List (Text × Text)) × (cache_secrets resolved [] c.bots ≡ ok cache)
              × (by_id cache ≡ look)))
        ⊎ ((c.multi_bot ≡ false) × (c.bot_secret ≡ []) × (no_secrets ≡ look))
        ⊎ ((c.multi_bot ≡ false)
            × (c.bot_secret ≢ [])
            × ((s : Text) × (resolved c.bot_secret ≡ ok s) × (only c.bot_id s ≡ look)))
  unfolding build_bot_secret_lookup
  build_cases c look h = elim (Bool-cases c.multi_bot) [
    | inl m ↦
        let (cache, filled, same) = >>=-eq-ok (cache_secrets resolved [] c.bots) _ (rw m at h) in
        inl (m, (cache, filled, ok-injective same))
    | inr m ↦ elim (Bool-cases (eqb c.bot_secret [])) [
      | inl e ↦ inr (inl (m, (eqb_iff c.bot_secret []).0 e, ok-injective (rw (m, e) at h)))
      | inr e ↦ elim (Result-cases (resolved c.bot_secret)) [
        | inr (why, r) ↦ absurd (let bad = rw (m, e, r) at h in cc)
        | inl (s, r) ↦
            inr (inr (m, neq_of_eqb c.bot_secret [] e, (s, r, ok-injective (rw (m, e, r) at h))))
      ]
    ]
  ]

  -- What a lookup has to do for a configuration.
  Serves : Config → SecretLookup → Type 0
  Serves c look =
      ((id s : Text) → find_secret look id ≡ ok s → IsConfigured c id s)
      × ((id s : Text) → IsConfigured c id s → (t : Text) × (find_secret look id ≡ ok t))

  over_cache :
      (c : Config) (look : SecretLookup) (cache : List (Text × Text))
      → c.multi_bot ≡ true
      → cache_secrets resolved [] c.bots ≡ ok cache
      → by_id cache ≡ look
      → Serves c look
  unfolding Serves IsConfigured find_secret
  over_cache c look cache m filled same = subst (Serves c) same (
    λ id s f. elim (cache_secrets_sound [] cache c.bots id s filled (found_by_id cache id s f)) [
      | inl bad ↦ absurd (unfold lookup in cc)
      | inr held ↦ inl (m, held)
    ],
    λ id s given. elim given [
      | inl (_, held) ↦
          let (t, e) = cache_secrets_complete [] cache c.bots id s filled held in
          (t, rw (e, find_secret) refl)
      | inr (other, _, _, _) ↦ absurd (let bad = sym m ∙ other in cc)
    ],
  )

  over_nothing :
      (c : Config) (look : SecretLookup)
      → c.multi_bot ≡ false
      → c.bot_secret ≡ []
      → no_secrets ≡ look
      → Serves c look
  unfolding Serves IsConfigured find_secret
  over_nothing c look m plain same = subst (Serves c) same (
    λ id s f. absurd (cc),
    λ id s given. elim given [
      | inl (other, _) ↦ absurd (let bad = sym m ∙ other in cc)
      | inr (_, _, given', _) ↦ absurd (given' plain)
    ],
  )

  over_one :
      (c : Config) (look : SecretLookup) (value : Text)
      → c.multi_bot ≡ false
      → c.bot_secret ≢ []
      → resolved c.bot_secret ≡ ok value
      → only c.bot_id value ≡ look
      → Serves c look
  unfolding Serves IsConfigured find_secret
  over_one c look value m given known same = subst (Serves c) same (
    λ id s f.
        let (own, v) = found_only c.bot_id value id s f in inr (m, own, given, known ∙ ap ok v),
    λ id s conf. elim conf [
      | inl (other, _) ↦ absurd (let bad = sym m ∙ other in cc)
      | inr (_, own, _, _) ↦ (value, rw ((eqb_iff c.bot_id id).1 own, find_secret) refl)
    ],
  )

  -- Where the lookup of secrets is built, each secret that it gives for an id is one that the
  -- configuration gives a bot with this id, and it gives one for every id that the configuration has a secret for.
  pub build_bot_secret_lookup_iff :
      (c : Config) (look : SecretLookup)
      → build_bot_secret_lookup resolved c ≡ ok look
      → ((id s : Text) → find_secret look id ≡ ok s → IsConfigured c id s)
        × ((id s : Text) → IsConfigured c id s → (t : Text) × (find_secret look id ≡ ok t))
  unfolding Serves
  build_bot_secret_lookup_iff c look h = elim (build_cases c look h) [
    | inl (m, (cache, filled, same)) ↦ over_cache c look cache m filled same
    | inr (inl (m, plain, same)) ↦ over_nothing c look m plain same
    | inr (inr (m, given, (s, known, same))) ↦ over_one c look s m given known same
  ]
