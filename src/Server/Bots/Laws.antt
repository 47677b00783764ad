-- ===== src/Server/Bots/Laws.antt =====
-- Which bot a request is sent by.
use express_send.Common.{Bool-cases, inl, inr, refl, true, false, [], ◌≡◌, ◌≢◌, ◌↔◌, ◌⊎◌, arith, ok}
use express_send.Text.{Text, eqb, contains}
use express_send.Text.Laws.{eqb_iff, neq_of_eqb}
use express_send.Server.Types.{Context}
use express_send.Server.Bots.{
  BotConfig, is_multi_bot, resolve_single, resolve_multi, resolve_request_bot,
}

-- The bot that is asked for: by the request, or by the chat where the request names none; [] for none.
pub Asks : Text → Text → Text → Type 0
Asks request_bot chat_bot asked =
    ((request_bot ≢ []) × (asked ≡ request_bot)) ⊎ ((request_bot ≡ []) × (asked ≡ chat_bot))

-- A server with one bot sends by it, where no bot or this one is asked for. With several, a caller
-- that is bound to one sends by it, where no bot or this one is asked for; any other caller sends
-- by the bot that is asked for, which is configured.
pub SendsBy : BotConfig → Context → Text → Text → Type 0
SendsBy cfg ctx asked bot =
    ((is_multi_bot cfg ≡ false)
      × (bot ≡ [])
      × ((asked ≡ []) ⊎ ((asked ≢ []) × (asked ≡ cfg.single_bot_name))))
    ⊎ ((is_multi_bot cfg ≡ true)
        × (ctx.auth_bot ≢ [])
        × (bot ≡ ctx.auth_bot)
        × ((asked ≡ []) ⊎ (asked ≡ ctx.auth_bot)))
    ⊎ ((is_multi_bot cfg ≡ true)
        × (ctx.auth_bot ≡ [])
        × (bot ≡ asked)
        × (asked ≢ [])
        × (contains asked cfg.bot_names ≡ true))

asked_iff :
    (cfg : BotConfig) (ctx : Context) (request_bot chat_bot asked bot : Text)
    → Asks request_bot chat_bot asked
    → (resolve_request_bot cfg ctx request_bot chat_bot ≡ ok bot) ↔ SendsBy cfg ctx asked bot
unfolding resolve_request_bot resolve_single resolve_multi Asks SendsBy
asked_iff cfg ctx request_bot chat_bot asked bot asks = ground (
  arith,
  eqb_iff request_bot [],
  eqb_iff request_bot ctx.auth_bot,
  eqb_iff request_bot cfg.single_bot_name,
  eqb_iff chat_bot [],
  eqb_iff chat_bot ctx.auth_bot,
  eqb_iff chat_bot cfg.single_bot_name,
  eqb_iff cfg.single_bot_name [],
  eqb_iff ctx.auth_bot [],
)

-- A request is sent by a bot exactly when it asks for one, or for none, that lets the bot of the
-- server, the bot of the caller or the configured bot that it asks for send it.
pub resolve_request_bot_iff :
    (cfg : BotConfig) (ctx : Context) (request_bot chat_bot bot : Text)
    → (resolve_request_bot cfg ctx request_bot chat_bot ≡ ok bot)
      ↔ ((asked : Text) × Asks request_bot chat_bot asked × SendsBy cfg ctx asked bot)
unfolding Asks
resolve_request_bot_iff cfg ctx request_bot chat_bot bot = (
  λ h. elim (Bool-cases (eqb request_bot [])) [
    | inl e ↦
        let asks : Asks request_bot chat_bot chat_bot = inr ((eqb_iff request_bot []).0 e, refl) in
        (chat_bot, asks, (asked_iff cfg ctx request_bot chat_bot chat_bot bot asks).0 h)
    | inr e ↦
        let asks : Asks request_bot chat_bot request_bot =
          inl (neq_of_eqb request_bot [] e, refl) in
        (request_bot, asks, (asked_iff cfg ctx request_bot chat_bot request_bot bot asks).0 h)
  ],
  λ (asked, asks, sends). (asked_iff cfg ctx request_bot chat_bot asked bot asks).1 sends,
)
