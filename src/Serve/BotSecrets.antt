-- ===== src/Serve/BotSecrets.antt =====
-- The secrets by which the tokens of callbacks are verified: `buildBotSecretLookup` of
-- internal/cmd/serve.go. Resolving a reference is the parameter `resolved`.
pub mod Laws
pub mod Command
use express_send.Common.{
  ◌||◌, if◌then◌else◌, Option, none, some, List, [], ◌∷◌, Result, ok, err, ◌>>=◌,
}
use express_send.Text.{Text, eqb, lookup, map_set}
use express_send.Config.Types.{Config}
use express_send.Config.Bots.{Bots}

pub data SecretError : Type 0 where
  unresolved_secret : Text → Text → SecretError
  unresolved_bot_secret : Text → SecretError

-- What the lookup answers for an id that it has no secret for.
pub data LookupError : Type 0 where
  unknown_id no_secret : Text → LookupError

-- The lookup that is built: over the resolved secrets by id, the only bot, or none.
pub data SecretLookup : Type 0 where
  by_id : List (Text × Text) → SecretLookup
  only : Text → Text → SecretLookup
  no_secrets : SecretLookup

unfoldable pub find_secret : SecretLookup → Text → Result LookupError Text
unfolding lookup eqb
find_secret (by_id cache) bot_id = elim (lookup bot_id cache) [
  | some s ↦ ok s
  | none ↦ err (unknown_id bot_id)
]
find_secret (only id resolved) bot_id =
    if eqb id bot_id then ok resolved else err (unknown_id bot_id)
find_secret no_secrets bot_id = err (no_secret bot_id)

module _ (resolved : Text → Result Text Text) where
  -- The loop over the bots, which fills the cache.
  unfoldable pub cache_secrets : List (Text × Text) → Bots → Result SecretError (List (Text × Text))
  unfolding eqb map_set
  cache_secrets cache [] = ok cache
  cache_secrets cache ((name, bot) ∷ bots) =
      let skipped = cache_secrets cache bots in
      let added : Result SecretError (List (Text × Text)) = elim (resolved bot.secret) [
        | err why ↦ err (unresolved_secret bot.id why)
        | ok s ↦ cache_secrets (map_set bot.id s cache) bots
      ] in
      if eqb bot.id [] || eqb bot.secret [] then skipped else added

  unfoldable pub build_bot_secret_lookup : Config → Result SecretError SecretLookup
  unfolding cache_secrets eqb
  build_bot_secret_lookup c =
      let several : Result SecretError SecretLookup =
        cache_secrets [] c.bots >>= λ cache. ok (by_id cache) in
      let single : Result SecretError SecretLookup = elim (resolved c.bot_secret) [
        | err why ↦ err (unresolved_bot_secret why)
        | ok s ↦ ok (only c.bot_id s)
      ] in
      if c.multi_bot then several else if eqb c.bot_secret [] then ok no_secrets else single
