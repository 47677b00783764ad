-- ===== src/Server/Bots.antt =====
-- The choice of the bot that sends: `resolveRequestBot` of internal/server/server.go.
pub mod Laws
use express_send.Common.{
  ℕ, Bool, true, false, ◌&&◌, not, if◌then◌else◌, ltb, List, [], ◌∷◌, length, Result, ok, err,
}
use express_send.Text.{Text, eqb, contains}
use express_send.Server.Types.{
  Context, BotRefusal, no_named_bot, other_bot, not_authenticated_bot, bot_required, unknown_bot,
}

-- The bots of the configuration: the names, and the name of the only one in single-bot mode.
pub record BotConfig : Type 0 where
  pub bot_names : List Text
  pub single_bot_name : Text

unfoldable pub is_multi_bot : BotConfig → Bool
is_multi_bot cfg = ltb 1 (length cfg.bot_names)

-- `wanted := requestBot; if wanted == "" { wanted = chatBot }`.
abbrev pub wanted_bot : Text → Text → Text
wanted_bot request_bot chat_bot = if eqb request_bot [] then chat_bot else request_bot

unfoldable pub resolve_single : BotConfig → Text → Result BotRefusal Text
resolve_single cfg wanted =
    if eqb wanted []
    then ok []
    else if eqb cfg.single_bot_name []
    then err (no_named_bot wanted)
    else if not (eqb wanted cfg.single_bot_name)
    then err (other_bot wanted cfg.single_bot_name)
    else ok []

unfoldable pub resolve_multi : BotConfig → Context → Text → Result BotRefusal Text
resolve_multi cfg ctx bot =
    if not (eqb ctx.auth_bot [])
    then if not (eqb bot []) && not (eqb bot ctx.auth_bot)
      then err (not_authenticated_bot bot ctx.auth_bot)
      else ok ctx.auth_bot
    else if eqb bot []
    then err bot_required
    else if not (contains bot cfg.bot_names)
    then err (unknown_bot bot)
    else ok bot

unfoldable pub resolve_request_bot : BotConfig → Context → Text → Text → Result BotRefusal Text
unfolding is_multi_bot resolve_single resolve_multi
resolve_request_bot cfg ctx request_bot chat_bot =
    let wanted = wanted_bot request_bot chat_bot in
    if not (is_multi_bot cfg) then resolve_single cfg wanted else resolve_multi cfg ctx wanted
