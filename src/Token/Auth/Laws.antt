-- ===== src/Token/Auth/Laws.antt =====
-- What getting a token does outside.
use express_send.Common.{
  Option, some, Option-cases, ok, ◌≡◌, refl, ap, ◌∙◌, inl, inr, Bool-cases, Result-cases, [], ◌∷◌,
  ℕ, suc,
}
use express_send.Text.{Text, eqb}
use express_send.Config.Types.{Config}
use express_send.Config.Bots.{cache_key}
use express_send.Config.Secret.{resolve}
use express_send.Token.Auth.{
  requested, sent_with, published, History, Machine, Botx, new_cache, cache_get, cache_set, in_file,
  in_vault, no_cache, CacheKind, request_token, authenticate, refresh_token,
}

-- The messages sent in a history.
unfoldable pub sends : History → ℕ
sends [] = 0
sends (sent_with t ∷ h) = suc (sends h)
sends (requested host id ∷ h) = sends h
sends (published r ∷ h) = sends h

cache_set-history :
    (botx : Botx) (k : CacheKind) (key token : Text) (ttl : ℕ) (m : Machine)
    → (cache_set botx k key token ttl m).history ≡ m.history
unfolding cache_set
cache_set-history botx in_file key token ttl m = refl
cache_set-history botx in_vault key token ttl m = refl
cache_set-history botx no_cache key token ttl m = refl

module _ {ℓ} {A : Type ℓ} (f : History → A)
    (skip : (host id : Text) (h : History) → f (requested host id ∷ h) ≡ f h) where
  request_token-history :
      (botx : Botx) (c : Config) (cache : Option CacheKind) (signature : Text) (m : Machine)
      → f (request_token botx c cache signature m).1.history ≡ f m.history
  unfolding request_token
  request_token-history botx c cache signature m =
      elim (Result-cases (botx.issue m.history c.host c.bot_id signature)) [
        | inr (why, e) ↦ rw (e, request_token) (skip c.host c.bot_id m.history)
        | inl (tok, e) ↦ elim (Option-cases cache) [
          | inl k ↦ rw (e, k, request_token) (skip c.host c.bot_id m.history)
          | inr (kind, k) ↦
              rw (e, k, request_token)
                (ap f (cache_set-history botx kind (cache_key c) tok c.cache.ttl _)
                  ∙ skip c.host c.bot_id m.history)
        ]
      ]

  -- A measure of the history that does not count requests for tokens is kept.
  pub authenticate-history :
      (botx : Botx) (c : Config) (m : Machine) → f (authenticate botx c m).1.history ≡ f m.history
  unfolding authenticate
  authenticate-history botx c m = elim (Bool-cases (eqb c.bot_token [])) [
    | inr e ↦ rw (e, authenticate) refl
    | inl e ↦ elim (Result-cases (resolve botx.getenv botx.read_vault c.bot_secret)) [
      | inr (why, k) ↦ rw (e, k, authenticate) refl
      | inl (secret, k) ↦
          elim (Bool-cases (eqb (cache_get botx (new_cache c.cache) (cache_key c) m) [])) [
            | inr hit ↦ rw (e, k, hit, authenticate) refl
            | inl miss ↦
                rw (e, k, miss, authenticate)
                  (request_token-history botx c (some (new_cache c.cache))
                    (botx.build_signature c.bot_id secret) m)
          ]
    ]
  ]

  -- So it is by a refresh.
  pub refresh_token-history :
      (botx : Botx) (c : Config) (cache : Option CacheKind) (m : Machine)
      → f (refresh_token botx c cache m).1.history ≡ f m.history
  unfolding refresh_token
  refresh_token-history botx c cache m =
      elim (Result-cases (resolve botx.getenv botx.read_vault c.bot_secret)) [
        | inr (why, k) ↦ rw (k, refresh_token) refl
        | inl (secret, k) ↦
            rw (k, refresh_token)
              (request_token-history botx c cache (botx.build_signature c.bot_id secret) m)
      ]

-- A refresh that the API answers asks it, and gives its token.
pub refresh_token_issued :
    (botx : Botx) (c : Config) (cache : Option CacheKind) (m : Machine) (secret fresh : Text)
    → resolve botx.getenv botx.read_vault c.bot_secret ≡ ok secret
    → botx.issue m.history c.host c.bot_id (botx.build_signature c.bot_id secret) ≡ ok fresh
    → (refresh_token botx c cache m).0 ≡ ok fresh
      × ((refresh_token botx c cache m).1.history ≡ requested c.host c.bot_id ∷ m.history)
unfolding refresh_token request_token
refresh_token_issued botx c cache m secret fresh known issued = elim (Option-cases cache) [
  | inl k ↦ rw (known, issued, k, refresh_token, request_token) (refl, refl)
  | inr (kind, k) ↦
      rw (known, issued, k, refresh_token, request_token)
        (refl, cache_set-history botx kind (cache_key c) fresh c.cache.ttl _)
]
