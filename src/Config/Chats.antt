-- ===== src/Config/Chats.antt =====
-- Chats by alias or UUID: `ResolveChatRef` and what rests on it.
pub mod Laws
use express_send.Common.{
  ℕ, ltb, length, Bool, true, false, ◌&&◌, not, if◌then◌else◌, Option, none, some, List, [], ◌∷◌,
  map, Result, ok, err,
}
use express_send.Text.{Text, eqb, lookup}
use express_send.Text.Sort.{sort_keys}
use express_send.Server.Types.{ChatResult, is_uuid}
use express_send.Config.Types.{
  ChatSettings, Config, ConfigError, no_aliases, unknown_alias, alias_without_id, chat_required,
  no_chats, multiple_chats, multiple_defaults,
}

abbrev pub Chats : Type 0
Chats = List (Text × ChatSettings)

-- `sortedMapKeys`.
unfoldable pub sorted_map_keys {ℓ} : {V : Type ℓ} → List (Text × V) → List Text
unfolding sort_keys
sorted_map_keys m = map (λ p. p.0) (sort_keys m)

abbrev no_such_alias : Chats → Text → ConfigError
no_such_alias [] ref = no_aliases ref
no_such_alias (p ∷ chats) ref = unknown_alias ref

-- The id and the bot binding of a reference.
unfoldable pub resolve_chat_ref : Chats → Text → Result ConfigError (Text × Text)
unfolding is_uuid lookup
resolve_chat_ref chats ref =
    let found : Result ConfigError (Text × Text) = elim (lookup ref chats) [
      | none ↦ err (no_such_alias chats ref)
      | some cc ↦ if eqb cc.id [] then err (alias_without_id ref) else ok (cc.id, cc.bot)
    ] in
    if is_uuid ref then ok (ref, []) else found

-- `Config.ResolveChatAlias`.
unfoldable pub resolve_chat_alias : Config → Text → Result ConfigError Text
unfolding resolve_chat_ref
resolve_chat_alias c chat =
    let resolved : Result ConfigError Text = elim (resolve_chat_ref c.chats chat) [
      | ok (id, bot) ↦ ok id
      | err e ↦ err e
    ] in
    if eqb chat [] then err chat_required else resolved

-- `Config.ResolveChatIDWithBot`: the configuration after it, and the bot.
unfoldable pub resolve_chat_id_with_bot : Config → Result ConfigError (Config × Text)
unfolding resolve_chat_ref
resolve_chat_id_with_bot c =
    let resolved : Result ConfigError (Config × Text) = elim (resolve_chat_ref c.chats c.chat_id) [
      | ok (id, bot) ↦ ok (record c { chat_id = id }, bot)
      | err e ↦ err e
    ] in
    if eqb c.chat_id [] then ok (c, []) else resolved

-- The chat resolver of the synchronous server.
unfoldable pub chat_resolver : Config → Text → Result ConfigError ChatResult
unfolding resolve_chat_id_with_bot
chat_resolver c chat = elim (resolve_chat_id_with_bot (record c { chat_id = chat })) [
  | ok (c', bot) ↦ ok (record { chat_id = c'.chat_id; bot = bot })
  | err e ↦ err e
]

-- The chat marked as default.
unfoldable pub default_chat : Chats → Option (Text × ChatSettings)
default_chat [] = none
default_chat ((name, chat) ∷ chats) = if chat.default then some (name, chat) else default_chat chats

-- The choice of a chat where none is given: the only one, or the default.
unfoldable pub sole_chat : Config → Text × ChatSettings → Result ConfigError (Config × Text)
sole_chat c (alias, chat) =
    if eqb chat.id []
    then err (alias_without_id alias)
    else ok (record c { chat_id = chat.id }, chat.bot)

unfoldable pub choose_chat : Config → Chats → Result ConfigError (Config × Text)
unfolding sole_chat default_chat sorted_map_keys
choose_chat c [] = err no_chats
choose_chat c (p ∷ []) = sole_chat c p
choose_chat c (p ∷ q ∷ more) = elim (default_chat (p ∷ q ∷ more)) [
  | some r ↦
      if eqb r.0 [] then err (multiple_chats (sorted_map_keys (p ∷ q ∷ more))) else sole_chat c r
  | none ↦ err (multiple_chats (sorted_map_keys (p ∷ q ∷ more)))
]

-- `Config.RequireChatIDWithBot`.
unfoldable pub require_chat_id_with_bot : Config → Result ConfigError (Config × Text)
unfolding resolve_chat_id_with_bot choose_chat
require_chat_id_with_bot c = elim (resolve_chat_id_with_bot c) [
  | err e ↦ err e
  | ok (c', bot) ↦
      let chosen = choose_chat c' c'.chats in
      if not (eqb c'.chat_id []) then ok (c', bot) else chosen
]

-- `Config.SingleOrDefaultChatAlias`.
unfoldable pub single_or_default_chat_alias : Chats → Option Text
unfolding default_chat
single_or_default_chat_alias (p ∷ []) = some p.0
single_or_default_chat_alias chats = elim (default_chat chats) [
  | none ↦ none
  | some (alias, chat) ↦ if not (eqb alias []) && not (eqb chat.id []) then some alias else none
]

-- `Config.ResolveChatBot`.
unfoldable pub resolve_chat_bot : Chats → Text → Text
unfolding lookup
resolve_chat_bot chats alias = elim (lookup alias chats) [ some chat ↦ chat.bot | none ↦ [] ]

-- The binding of the chat marked as default; "" without one.
abbrev default_bot : Chats → Text
unfolding default_chat
default_bot chats = elim (default_chat chats) [ some (alias, chat) ↦ chat.bot | none ↦ [] ]

abbrev only_or_default_bot : Chats → Text
unfolding default_bot
only_or_default_bot (p ∷ []) = p.1.bot
only_or_default_bot chats = default_bot chats

-- `Config.resolveChatBotFromFlags`.
unfoldable pub resolve_chat_bot_from_flags : Chats → Text → Text
unfolding resolve_chat_bot only_or_default_bot
resolve_chat_bot_from_flags chats chat_id =
    if not (eqb chat_id []) then resolve_chat_bot chats chat_id else only_or_default_bot chats

-- The loop of `Config.ValidateDefaultChat`.
unfoldable pub default_names : Chats → List Text
default_names [] = []
default_names ((name, chat) ∷ chats) =
    let rest = default_names chats in if chat.default then name ∷ rest else rest

-- `Config.ValidateDefaultChat`; the names of the message are not sorted here.
unfoldable pub validate_default_chat : Chats → Option ConfigError
unfolding default_names
validate_default_chat chats =
    let defaults = default_names chats in
    if ltb 1 (length defaults) then some (multiple_defaults defaults) else none
