-- ===== src/Config/Bots.antt =====
-- Bots by name or id: the methods of `Config` on its bots, internal/config/config.go.
pub mod Laws
use express_send.Common.{
  ◌-◌, ℕ, ltb, length, ◌==◌, Bool, true, false, ◌&&◌, ◌||◌, not, if◌then◌else◌, Option, none, some,
  List, [], ◌∷◌, ◌++◌, map, Result, ok, err, ◌>>=◌,
}
use express_send.Text.{Text, codes, eqb, lookup, is_some}
use express_send.Text.Sort.{sort_keys}
use express_send.Config.Types.{
  int_zero, BotSettings, ChatSettings, CacheSettings, Config, BotEntry, ChatEntry, ConfigError,
  unknown_bot, unknown_bot_id, multiple_bots, secret_and_token, unresolved, chat_with_unknown_bot,
  different_host, different_secret, different_token, different_timeout, invalid_format,
  invalid_routing_mode,
}
use express_send.Config.Chats.{Chats, sorted_map_keys}

abbrev pub Bots : Type 0
Bots = List (Text × BotSettings)

-- `Config.HTTPTimeout`, in seconds.
unfoldable pub http_timeout : Config → ℕ
http_timeout c = if ltb int_zero c.bot_timeout then c.bot_timeout - int_zero else 10

unfoldable pub cache_key : Config → Text
cache_key c = c.host ++ (b':' ∷ c.bot_id)

-- The fields of a bot that a configuration takes over.
abbrev pub with_bot : Config → Text → BotSettings → Config
with_bot c name bot = record c {
  host = bot.host;
  bot_id = bot.id;
  bot_secret = bot.secret;
  bot_token = bot.token;
  bot_name = name;
  bot_timeout = bot.timeout;
}

-- `Config.ApplyChatBot`.
unfoldable pub apply_chat_bot : Config → Text → Result ConfigError Config
unfolding lookup
apply_chat_bot c name = elim (lookup name c.bots) [
  | some bot ↦ ok (with_bot c name bot)
  | none ↦ err (unknown_bot name)
]

-- The choice where no bot is named: there must be one at most.
unfoldable pub only_bot : Config → Bots → Result ConfigError Config
unfolding sorted_map_keys
only_bot c [] = ok c
only_bot c ((name, bot) ∷ []) = ok (with_bot c name bot)
only_bot c (p ∷ q ∷ bots) = err (multiple_bots (sorted_map_keys (p ∷ q ∷ bots)))

-- `Config.resolveBot`.
unfoldable pub resolve_bot : Config → Text → Result ConfigError Config
unfolding lookup only_bot
resolve_bot c bot_flag =
    let named : Result ConfigError Config = elim (lookup bot_flag c.bots) [
      | some bot ↦ ok (with_bot c bot_flag bot)
      | none ↦ err (unknown_bot bot_flag)
    ] in
    if not (eqb bot_flag []) then named else only_bot c c.bots

abbrev pub bot_entry : Text × BotSettings → BotEntry
bot_entry (name, b) = record { name = name; host = b.host; id = b.id }

-- `Config.BotEntries`, sorted by name.
unfoldable pub bot_entries : Bots → List BotEntry
unfolding sort_keys
bot_entries bots = map bot_entry (sort_keys bots)

abbrev pub chat_entry : Text × ChatSettings → ChatEntry
chat_entry (name, c) = record { name = name; id = c.id; bot = c.bot; default = c.default }

-- `Config.ChatEntries`, sorted by name.
unfoldable pub chat_entries : Chats → List ChatEntry
unfolding sort_keys
chat_entries chats = map chat_entry (sort_keys chats)

-- `Config.ValidateChatBots`: the chats after it.
unfoldable pub validate_chat_bots : Bots → Bool → Chats → Result ConfigError Chats
unfolding lookup
validate_chat_bots bots strict [] = ok []
validate_chat_bots bots strict ((name, chat) ∷ chats) =
    let rest = validate_chat_bots bots strict chats in
    if eqb chat.bot [] || is_some (lookup chat.bot bots)
    then (rest >>= λ cs. ok ((name, chat) ∷ cs))
    else if strict
    then err (chat_with_unknown_bot name chat.bot)
    else rest >>= λ cs. ok ((name, record chat { bot = [] }) ∷ cs)

-- `Config.validateBotConfigs`.
unfoldable pub validate_bot_configs : Bots → Option ConfigError
validate_bot_configs [] = none
validate_bot_configs ((name, bot) ∷ bots) =
    if not (eqb bot.secret []) && not (eqb bot.token [])
    then some (secret_and_token name)
    else validate_bot_configs bots

-- The first difference of two bots with one id.
unfoldable pub bot_conflict_with : Text → BotSettings → Text × BotSettings → Option ConfigError
bot_conflict_with name bot (alias, prev) =
    if not (eqb bot.host prev.host)
    then some (different_host name alias)
    else if not (eqb bot.secret prev.secret)
    then some (different_secret name alias)
    else if not (eqb bot.token prev.token)
    then some (different_token name alias)
    else if not (bot.timeout == prev.timeout)
    then some (different_timeout name alias)
    else none

-- The loop of `Config.ValidateBotIDs`; `seen` has the first bot of each id.
unfoldable pub check_bot_ids : List (Text × (Text × BotSettings)) → Bots → Option ConfigError
unfolding lookup bot_conflict_with
check_bot_ids seen [] = none
check_bot_ids seen ((name, bot) ∷ bots) =
    let kept = check_bot_ids seen bots in
    let added = check_bot_ids ((bot.id, (name, bot)) ∷ seen) bots in
    if eqb bot.id [] then kept else elim (lookup bot.id seen) [
      | none ↦ added
      | some prev ↦ elim (bot_conflict_with name bot prev) [ some e ↦ some e | none ↦ kept ]
    ]

unfoldable pub validate_bot_ids : Bots → Option ConfigError
unfolding check_bot_ids sort_keys
validate_bot_ids bots = check_bot_ids [] (sort_keys bots)

-- `Config.BotByID`.
unfoldable pub bot_by_id : Text → Bots → Result ConfigError (Text × BotSettings)
bot_by_id id [] = err (unknown_bot_id id)
bot_by_id id ((name, bot) ∷ bots) = if eqb bot.id id then ok (name, bot) else bot_by_id id bots

unfoldable pub has_credentials : Config → Bool
has_credentials c =
    not (eqb c.host [])
    && not (eqb c.bot_id [])
    && (not (eqb c.bot_secret []) || not (eqb c.bot_token []))

-- `Config.clearStaleBotName`.
unfoldable pub clear_stale_bot_name : Config → Config
unfolding lookup
clear_stale_bot_name c =
    let unnamed = record c { bot_name = [] } in
    let checked : Config = elim (lookup c.bot_name c.bots) [
      | none ↦ c
      | some bot ↦
          if not (eqb c.host bot.host) || not (eqb c.bot_id bot.id)
          then unnamed
          else if not (eqb bot.secret []) && not (eqb c.bot_secret bot.secret)
          then unnamed
          else if not (eqb bot.token []) && not (eqb c.bot_token bot.token)
          then unnamed
          else c
    ] in
    if eqb c.bot_name [] then c else checked

-- `Config.ValidateFormat` and `ValidateRoutingMode`.
unfoldable pub validate_format : Config → Option ConfigError
validate_format c =
    if not (eqb c.format (codes "text")) && not (eqb c.format (codes "json"))
    then some (invalid_format c.format)
    else none

unfoldable pub validate_routing_mode : Text → Option ConfigError
validate_routing_mode mode =
    if eqb mode (codes "direct") || eqb mode (codes "catalog") || eqb mode (codes "mixed")
    then none
    else some (invalid_routing_mode mode)
