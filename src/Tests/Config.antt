-- ===== src/Tests/Config.antt =====
-- The theorems on configurations at concrete inputs.
use express_send.Common.{
  true, if◌then◌else◌, false, none, some, [], ◌∷◌, ◌≡◌, ◌≢◌, ◌↔◌, ◌⊎◌, refl, Result, ok, err, All,
}
use express_send.Text.{Text, codes, eqb, lookup, cut_prefix}
use express_send.Text.Laws.{neq_of_eqb}
use express_send.Text.Sort.{text_leb, insert_key, sort_keys}
use express_send.Server.Types.Uuid.{IsUuid}
use express_send.Config.Types.{BotSettings, ChatSettings, Config}
use express_send.Config.Chats.{
  Chats, resolve_chat_ref, sorted_map_keys, default_names, validate_default_chat, default_chat,
  resolve_chat_bot, resolve_chat_bot_from_flags,
}
use express_send.Config.Chats.Laws.{resolve_chat_ref_iff}
use express_send.Config.Bots.{
  Bots, only_bot, resolve_bot, apply_chat_bot, validate_bot_configs, bot_conflict_with,
  check_bot_ids, validate_bot_ids, bot_by_id, has_credentials, clear_stale_bot_name,
}
use express_send.Config.Bots.Laws.{RunsAs, bot_by_id_any}
use express_send.Config.Secret.{resolve, resolve_env, resolve_vault}
use express_send.Config.Load.{
  Flags, ConfigFile, World, set_credentials, apply_flags, require_credentials, pick_bot,
  resolve_file_bot, resolve_value, resolve_optional, resolve_bots, resolve_chats, resolve_secrets,
  apply_cache_env, apply_env_with_auth, apply_env, load_file, load_layers, load,
}
use express_send.Config.Load.Laws.{OneCredential, load_authenticates}

abbrev value_of {ℓ κ} : {E : Type ℓ} {A : Type κ} → A → Result E A → A
value_of d (ok a) = a
value_of d (err e) = d

abbrev main_bot : BotSettings
main_bot = record {
  host = codes "x.example";
  id = codes "b1";
  secret = codes "env:S";
  token = [];
  timeout = 9223372036854775813;
}

abbrev twin_bot : BotSettings
twin_bot = record {
  host = codes "x.example";
  id = codes "b1";
  secret = codes "s";
  token = [];
  timeout = 9223372036854775813;
}

abbrev ops_chat : ChatSettings
ops_chat = record { id = codes "c1"; bot = codes "main"; default = true }

abbrev ops_chats : Chats
ops_chats = (codes "ops", ops_chat) ∷ []

abbrev file : Bots → ConfigFile
file bots = record {
  bots = bots;
  chats = ops_chats;
  cache = record {
    cache_type = codes "file";
    file_path = [];
    vault_url = [];
    vault_path = [];
    ttl = 60;
  };
  routing_mode = [];
  queue_driver = [];
}

-- The environment has the secret of the bot.
abbrev secret_env : Text → Text
secret_env name = if eqb name (codes "S") then codes "s1" else []

abbrev world : Bots → World
world bots = record {
  read = ok (file bots);
  read_vault = λ addr token path key. err (codes "no vault");
  getenv = secret_env;
  atoi = λ s. none;
}

resolve_chat_ref_iff_example :
    (resolve_chat_ref ops_chats (codes "ops") ≡ ok (codes "c1", codes "main")) ↔ (
      (IsUuid (codes "ops") × (codes "c1" ≡ codes "ops") × (codes "main" ≡ []))
      ⊎ (¬ IsUuid (codes "ops")
          × (chat : ChatSettings) × (lookup (codes "ops") ops_chats ≡ some chat)
          × (codes "c1" ≢ [])
          × (codes "c1" ≡ chat.id)
          × (codes "main" ≡ chat.bot)))
resolve_chat_ref_iff_example =
    resolve_chat_ref_iff ops_chats (codes "ops") (codes "c1") (codes "main")

abbrev twins : Bots
twins = (codes "a", twin_bot) ∷ (codes "b", twin_bot) ∷ []

bot_by_id_any_example : All (RunsAs (codes "b1") twin_bot) twins
unfolding eqb validate_bot_ids check_bot_ids bot_conflict_with sort_keys insert_key text_leb lookup
    bot_by_id
bot_by_id_any_example =
    bot_by_id_any twins (codes "b1") (codes "a", twin_bot) refl (neq_of_eqb (codes "b1") [] refl)
      refl

abbrev no_flags : Flags
no_flags = record {
  bot = [];
  host = [];
  bot_id = [];
  secret = [];
  token = [];
  chat_id = [];
  no_cache = false;
  format = [];
}

abbrev blank : Config
blank = record {
  bots = [];
  chats = [];
  cache = record { cache_type = []; file_path = []; vault_url = []; vault_path = []; ttl = 0 };
  host = [];
  bot_id = [];
  bot_secret = [];
  bot_token = [];
  bot_name = [];
  bot_timeout = 9223372036854775808;
  chat_id = [];
  format = [];
  multi_bot = false;
  no_cache = false;
  routing_mode = [];
  queue_driver = [];
}

-- Two bots, of which the default chat picks one.
abbrev two : World
two = world ((codes "main", main_bot) ∷ (codes "other", twin_bot) ∷ [])

load_authenticates_example :
    (has_credentials (value_of blank (load two no_flags)) ≡ true)
    × OneCredential
        (value_of blank (load two no_flags)).bot_secret
        (value_of blank (load two no_flags)).bot_token
unfolding eqb lookup resolve resolve_env resolve_vault cut_prefix sorted_map_keys default_names
    validate_default_chat default_chat resolve_chat_bot resolve_chat_bot_from_flags only_bot
    resolve_bot apply_chat_bot validate_bot_configs has_credentials clear_stale_bot_name
    set_credentials apply_flags require_credentials pick_bot resolve_file_bot resolve_value
    resolve_optional resolve_bots resolve_chats resolve_secrets apply_cache_env apply_env_with_auth
    apply_env load_file load_layers load
load_authenticates_example =
    load_authenticates two no_flags (value_of blank (load two no_flags)) refl
