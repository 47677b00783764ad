-- ===== src/Config/Types.antt =====
-- The parts of a configuration that the rest reads. A map is a list of pairs with distinct keys,
-- in the order in which a loop meets them.
use express_send.Common.{ℕ, Bool, List}
use express_send.Text.{Text}

-- The int v of a `timeout` is the number v + 2 ^ 63, and this is the int 0.
abbrev pub int_zero : ℕ
int_zero = 9223372036854775808

pub record BotSettings : Type 0 where
  pub host : Text
  pub id : Text
  pub secret : Text
  pub token : Text
  pub timeout : ℕ

pub record ChatSettings : Type 0 where
  pub id : Text
  pub bot : Text
  pub default : Bool

pub record CacheSettings : Type 0 where
  pub cache_type : Text
  pub file_path : Text
  pub vault_url : Text
  pub vault_path : Text
  pub ttl : ℕ

-- A bot and a chat as they are listed, without secrets: `BotEntry` and `ChatEntry`.
pub record BotEntry : Type 0 where
  pub name : Text
  pub host : Text
  pub id : Text

pub record ChatEntry : Type 0 where
  pub name : Text
  pub id : Text
  pub bot : Text
  pub default : Bool

pub record Config : Type 0 where
  pub bots : List (Text × BotSettings)
  pub chats : List (Text × ChatSettings)
  pub cache : CacheSettings
  pub host : Text
  pub bot_id : Text
  pub bot_secret : Text
  pub bot_token : Text
  pub bot_name : Text
  pub bot_timeout : ℕ
  pub chat_id : Text
  pub format : Text
  pub multi_bot : Bool
  pub no_cache : Bool
  pub routing_mode : Text
  pub queue_driver : Text

-- The errors, with the names that the messages quote.
pub data ConfigError : Type 0 where
  unknown_bot unknown_bot_id : Text → ConfigError
  multiple_bots : List Text → ConfigError
  secret_and_token : Text → ConfigError
  unresolved : Text → Text → ConfigError
  no_aliases unknown_alias alias_without_id : Text → ConfigError
  chat_required no_chats : ConfigError
  multiple_chats multiple_defaults : List Text → ConfigError
  chat_with_unknown_bot : Text → Text → ConfigError
  host_required bot_id_required credentials_required : ConfigError
  two_env_credentials driver_required no_bots : ConfigError
  invalid_routing_mode invalid_format : Text → ConfigError
  unreadable : Text → ConfigError
  different_host different_secret different_token different_timeout : Text → Text → ConfigError
