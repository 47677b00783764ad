-- ===== src/Config/Load.antt =====
-- Loading: the file, the environment and the flags, each over the one before it. Finding and
-- reading the file and parsing its YAML is the parameter `read`, Vault is `read_vault`, the
-- environment is `getenv`, and `strconv.Atoi` on a TTL is `atoi`.
pub mod Laws
use express_send.Common.{
  ℕ, ltb, leb, length, Bool, true, false, ◌&&◌, ◌||◌, not, if◌then◌else◌, Option, none, some, List,
  [], ◌∷◌, Result, ok, err, ◌>>=◌,
}
use express_send.Text.{Text, codes, eqb, lookup}
use express_send.Config.Secret.{resolve}
use express_send.Config.Types.{
  int_zero, BotSettings, ChatSettings, CacheSettings, Config, ConfigError, unresolved, unknown_bot,
  secret_and_token, multiple_bots, host_required, bot_id_required, credentials_required,
  two_env_credentials, driver_required, no_bots,
}
use express_send.Config.Chats.{
  Chats, sorted_map_keys, validate_default_chat, resolve_chat_bot_from_flags,
}
use express_send.Config.Bots.{
  Bots, apply_chat_bot, resolve_bot, validate_bot_configs, validate_bot_ids, has_credentials,
  clear_stale_bot_name, validate_routing_mode, with_bot,
}

-- The flags that a command shares with the others.
pub record Flags : Type 0 where
  pub bot : Text
  pub host : Text
  pub bot_id : Text
  pub secret : Text
  pub token : Text
  pub chat_id : Text
  pub no_cache : Bool
  pub format : Text

-- What the file gives.
pub record ConfigFile : Type 0 where
  pub bots : Bots
  pub chats : Chats
  pub cache : CacheSettings
  pub routing_mode : Text
  pub queue_driver : Text

pub record World : Type 0 where
  pub read : Result ConfigError ConfigFile
  pub read_vault : Text → Text → Text → Text → Result Text Text
  pub getenv : Text → Text
  pub atoi : Text → Option ℕ

-- A check that gives an error, as a step of a chain.
abbrev pub check : Option ConfigError → Config → Result ConfigError Config
check none c = ok c
check (some e) c = err e

-- `if v != "" { field = v }`.
abbrev pub override : Text → Text → Text
override v old = if not (eqb v []) then v else old

abbrev pub fresh : ConfigFile → Config
fresh f = record {
  bots = f.bots;
  chats = f.chats;
  cache = f.cache;
  host = [];
  bot_id = [];
  bot_secret = [];
  bot_token = [];
  bot_name = [];
  bot_timeout = int_zero;
  chat_id = [];
  format = [];
  multi_bot = false;
  no_cache = false;
  routing_mode = f.routing_mode;
  queue_driver = f.queue_driver;
}

-- A secret and a token that replace what stands: a secret clears the token, then a token clears
-- the secret.
unfoldable pub set_credentials : Text → Text → Config → Config
set_credentials secret token c =
    let c' = if not (eqb secret []) then record c { bot_secret = secret; bot_token = [] } else c in
    if not (eqb token []) then record c' { bot_token = token; bot_secret = [] } else c'

unfoldable pub apply_flags : Flags → Config → Config
unfolding set_credentials
apply_flags flags c =
    let c' =
      set_credentials flags.secret flags.token
        (record c { host = override flags.host c.host; bot_id = override flags.bot_id c.bot_id }) in
    let format = override flags.format c'.format in
    record c' {
      chat_id = override flags.chat_id c'.chat_id;
      cache = if flags.no_cache then record c'.cache { cache_type = codes "none" } else c'.cache;
      no_cache = flags.no_cache || c'.no_cache;
      format = if eqb format [] then codes "text" else format;
    }

-- The required fields.
unfoldable pub require_credentials : Config → Result ConfigError Config
require_credentials c =
    if eqb c.host []
    then err host_required
    else if eqb c.bot_id []
    then err bot_id_required
    else if eqb c.bot_secret [] && eqb c.bot_token []
    then err credentials_required
    else ok c

-- With several bots and none named: the environment and the flags, or the bot of the chat.
unfoldable pub pick_bot : Flags → Config → Result ConfigError Config
unfolding has_credentials resolve_chat_bot_from_flags apply_chat_bot
pick_bot flags c =
    let chat_bot = resolve_chat_bot_from_flags c.chats flags.chat_id in
    let bound = apply_chat_bot c chat_bot in
    if eqb flags.bot [] && ltb 1 (length c.bots) && eqb c.bot_name []
    then if has_credentials c
      then ok c
      else if not (eqb chat_bot [])
      then bound
      else err (multiple_bots (sorted_map_keys c.bots))
    else ok c

-- Layer 2: the bot of the file, where one is named or there is no choice.
unfoldable pub resolve_file_bot : Flags → Config → Result ConfigError Config
unfolding resolve_bot
resolve_file_bot flags c =
    let resolved = resolve_bot c flags.bot in
    if not (eqb flags.bot []) || leb (length c.bots) 1 then resolved else ok c

module _ (w : World) where
  -- A value of a bot or chat with its reference resolved.
  unfoldable pub resolve_value : Text → Text → Result ConfigError Text
  unfolding resolve
  resolve_value name v = elim (resolve w.getenv w.read_vault v) [
    | ok r ↦ ok r
    | err why ↦ err (unresolved name why)
  ]

  unfoldable pub resolve_optional : Text → Text → Result ConfigError Text
  unfolding resolve_value
  resolve_optional name v =
      let resolved = resolve_value name v in if eqb v [] then ok v else resolved

  -- The loops of `Config.resolveSecrets`, where credentials are not skipped.
  unfoldable pub resolve_bots : Bots → Result ConfigError Bots
  unfolding resolve_value resolve_optional
  resolve_bots [] = ok []
  resolve_bots ((name, bot) ∷ bots) =
      let rest = resolve_bots bots in
      resolve_value name bot.host >>= λ host. resolve_value name bot.id >>= λ id.
      resolve_optional name bot.secret >>= λ secret. resolve_optional name bot.token >>= λ token.
      rest >>= λ bs.
      ok ((name, record bot { host = host; id = id; secret = secret; token = token }) ∷ bs)

  unfoldable pub resolve_chats : Chats → Result ConfigError Chats
  unfolding resolve_optional
  resolve_chats [] = ok []
  resolve_chats ((name, chat) ∷ chats) =
      let rest = resolve_chats chats in
      resolve_optional name chat.id >>= λ id.
      rest >>= λ cs. ok ((name, record chat { id = id }) ∷ cs)

  unfoldable pub resolve_secrets : Config → Result ConfigError Config
  unfolding resolve_bots resolve_chats
  resolve_secrets c = resolve_bots c.bots >>= λ bots.
      resolve_chats c.chats >>= λ chats. ok (record c { bots = bots; chats = chats })

  unfoldable pub apply_cache_env : CacheSettings → CacheSettings
  apply_cache_env c = record c {
    cache_type = override (w.getenv (codes "EXPRESS_BOTX_CACHE_TYPE")) c.cache_type;
    file_path = override (w.getenv (codes "EXPRESS_BOTX_CACHE_FILE_PATH")) c.file_path;
    vault_url = override (w.getenv (codes "EXPRESS_BOTX_CACHE_VAULT_URL")) c.vault_url;
    vault_path = override (w.getenv (codes "EXPRESS_BOTX_CACHE_VAULT_PATH")) c.vault_path;
    ttl =
        if eqb (w.getenv (codes "EXPRESS_BOTX_CACHE_TTL")) []
        then c.ttl
        else elim (w.atoi (w.getenv (codes "EXPRESS_BOTX_CACHE_TTL"))) [
          | some n ↦ n
          | none ↦ c.ttl
        ];
  }

  -- `applyEnvWithAuth`.
  unfoldable pub apply_env_with_auth : Bool → Config → Result ConfigError Config
  unfolding apply_cache_env set_credentials
  apply_env_with_auth manual_auth c =
      let c' = record c {
        host = override (w.getenv (codes "EXPRESS_BOTX_HOST")) c.host;
        bot_id = override (w.getenv (codes "EXPRESS_BOTX_BOT_ID")) c.bot_id;
        cache = apply_cache_env c.cache;
      } in
      let env_secret = w.getenv (codes "EXPRESS_BOTX_SECRET") in
      let env_token = w.getenv (codes "EXPRESS_BOTX_TOKEN") in
      if manual_auth
      then ok c'
      else if not (eqb env_secret []) && not (eqb env_token [])
      then err two_env_credentials
      else ok (set_credentials env_secret env_token c')

  unfoldable pub apply_env : Config → Result ConfigError Config
  unfolding apply_env_with_auth
  apply_env = apply_env_with_auth false

  -- The file, its secrets and the checks on it.
  unfoldable pub load_file : Result ConfigError Config
  unfolding resolve_secrets
  load_file = w.read >>= λ f. resolve_secrets (fresh f) >>= λ c.
      check (validate_bot_configs c.bots) c >>= λ c. check (validate_default_chat c.chats) c

  -- `loadBase`.
  unfoldable pub load_base : Flags → Result ConfigError Config
  unfolding load_file apply_env apply_flags
  load_base flags = load_file >>= λ c. apply_env c >>= λ c. ok (apply_flags flags c)

  -- The layers of `Load` and `LoadForServe` up to the name of the bot.
  unfoldable pub load_layers : Flags → Result ConfigError Config
  unfolding load_file resolve_file_bot apply_env apply_flags clear_stale_bot_name
  load_layers flags = load_file >>= λ c. resolve_file_bot flags c >>= λ c.
      apply_env c >>= λ c. ok (clear_stale_bot_name (apply_flags flags c))

  unfoldable pub load : Flags → Result ConfigError Config
  unfolding load_layers pick_bot require_credentials
  load flags = load_layers flags >>= λ c. pick_bot flags c >>= λ c. require_credentials c

  unfoldable pub load_for_serve : Flags → Result ConfigError Config
  unfolding load_layers require_credentials has_credentials
  load_for_serve flags = load_layers flags >>= λ c.
      let multi = eqb flags.bot [] && ltb 1 (length c.bots) && not (has_credentials c) in
      if multi then ok (record c { multi_bot = true }) else require_credentials c

  -- The default of the routing mode, and the queue: `LoadForEnqueue` and `LoadForServeEnqueue`.
  unfoldable pub load_for_enqueue : Flags → Result ConfigError Config
  unfolding load_base validate_routing_mode
  load_for_enqueue flags = load_base flags >>= λ c.
      let c' = record c {
        routing_mode = if eqb c.routing_mode [] then codes "mixed" else c.routing_mode;
      } in
      check (validate_routing_mode c'.routing_mode) c' >>= λ c.
      if eqb c.queue_driver [] then err driver_required else ok c

  unfoldable pub load_for_worker : Flags → Result ConfigError Config
  unfolding load_base validate_bot_ids
  load_for_worker flags = load_base flags >>= λ c.
      if eqb c.queue_driver []
      then err driver_required
      else elim c.bots [ [] ↦ err no_bots | _ ∷ _ ↦ check (validate_bot_ids c.bots) c ]
