-- ===== src/Token/Auth.antt =====
-- Getting a token: `authenticate`, `refreshToken` and `newCache` of internal/cmd/cmd.go. The BotX
-- API, the cache in Vault and HMAC are outside: the API answers by what happened before.
pub mod Laws
use express_send.Common.{
  ℕ, Bool, not, if◌then◌else◌, Option, none, some, List, [], ◌∷◌, ◌++◌, Result, ok, err,
}
use express_send.Text.{Text, codes, eqb}
use express_send.Config.Types.{Config, CacheSettings}
use express_send.Config.Bots.{cache_key}
use express_send.Config.Secret.{resolve}
use express_send.Token.Cache.{CacheFile, file_get, file_set}
use express_send.Queue.Types.{WorkResult}

-- What the program does outside, latest first.
pub data Event : Type 0 where
  -- A token is requested from a host for a bot.
  requested : Text → Text → Event
  -- A message is sent with a token.
  sent_with : Text → Event
  published : WorkResult → Event

abbrev pub History : Type 0
History = List Event

-- What comes back for a message: a sync id, 401, or another error, such as a lost response; after the
-- last, the API may have taken the message or not.
pub data Answer : Type 0 where
  delivered : Text → Answer
  unauthorized_ : Answer
  failed : Text → Answer

pub record Machine : Type 0 where
  pub file : CacheFile
  pub history : History

-- What is outside. `issue` is `auth.GetToken` for a host, a bot and a signature.
pub record Botx : Type 0 where
  pub getenv : Text → Text
  pub read_vault : Text → Text → Text → Text → Result Text Text
  pub build_signature : Text → Text → Text
  pub issue : History → Text → Text → Text → Result Text Text
  pub vault_get : History → Text → Text
  pub now : History → ℕ
  pub writable : Bool

-- `newCache`; the path of the file is left to the file.
pub data CacheKind : Type 0 where
  in_file in_vault no_cache : CacheKind

unfoldable pub new_cache : CacheSettings → CacheKind
unfolding eqb
new_cache c =
    if eqb c.cache_type (codes "file")
    then in_file
    else if eqb c.cache_type (codes "vault")
    then in_vault
    else no_cache

module _ (botx : Botx) where
  -- `Get` and `Set` of the cache of a configuration.
  unfoldable pub cache_get : CacheKind → Text → Machine → Text
  unfolding file_get
  cache_get in_file key m = file_get (botx.now m.history) key m.file
  cache_get in_vault key m = botx.vault_get m.history key
  cache_get no_cache key m = []

  -- The cache that `authenticate` returns; `none` for nil.
  unfoldable pub returned_cache : Config → Option CacheKind
  unfolding resolve new_cache
  returned_cache c =
      let static : Option CacheKind = elim (resolve botx.getenv botx.read_vault c.bot_token) [
        | err why ↦ none
        | ok token ↦ some no_cache
      ] in
      let by_secret : Option CacheKind = elim (resolve botx.getenv botx.read_vault c.bot_secret) [
        | err why ↦ none
        | ok secret ↦ some (new_cache c.cache)
      ] in
      if not (eqb c.bot_token []) then static else by_secret

  unfoldable pub cache_set : CacheKind → Text → Text → ℕ → Machine → Machine
  unfolding file_set
  cache_set in_file key token ttl m = record m {
    file = file_set botx.writable (botx.now m.history) key token ttl m.file;
  }
  cache_set in_vault key token ttl m = m
  cache_set no_cache key token ttl m = m

  -- A new token of the API, put in the cache where there is one.
  unfoldable pub request_token :
      Config → Option CacheKind → Text → Machine → Result Text Text × Machine
  unfolding cache_set cache_key
  request_token c cache signature m =
      let m' = record m { history = requested c.host c.bot_id ∷ m.history } in
      elim (botx.issue m.history c.host c.bot_id signature) [
        | err why ↦ (err why, m')
        | ok tok ↦ (
          ok tok,
          elim cache [ none ↦ m' | some kind ↦ cache_set kind (cache_key c) tok c.cache.ttl m' ],
        )
      ]

  unfoldable pub authenticate : Config → Machine → Result Text Text × Machine
  unfolding resolve request_token cache_get new_cache cache_key
  authenticate c m =
      let static = resolve botx.getenv botx.read_vault c.bot_token in
      let cached = cache_get (new_cache c.cache) (cache_key c) m in
      let by_secret : Result Text Text × Machine =
        elim (resolve botx.getenv botx.read_vault c.bot_secret) [
          | err why ↦ (err why, m)
          | ok secret ↦
              let asked =
                request_token c (some (new_cache c.cache)) (botx.build_signature c.bot_id secret)
                  m in
              if not (eqb cached []) then (ok cached, m) else asked
        ] in
      if not (eqb c.bot_token []) then (static, m) else by_secret

  -- `refreshToken`, which asks the API in any case.
  unfoldable pub refresh_token : Config → Option CacheKind → Machine → Result Text Text × Machine
  unfolding resolve request_token
  refresh_token c cache m = elim (resolve botx.getenv botx.read_vault c.bot_secret) [
    | err why ↦ (err why, m)
    | ok secret ↦ request_token c cache (botx.build_signature c.bot_id secret) m
  ]
