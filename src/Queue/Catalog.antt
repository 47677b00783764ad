-- ===== src/Queue/Catalog.antt =====
-- The routing catalog and its cache: internal/queue/catalog.go. The name of a revision is made of
-- the time and a count by the parameter `revision`; a file of the cache is what decoding it gives.
pub mod Laws
use express_send.Common.{
  ℕ, ltb, ◌+◌, ◌-◌, length, Bool, ◌&&◌, not, if◌then◌else◌, Option, none, some, List, [], ◌∷◌, map,
  Result, ok, err,
}
use express_send.Text.{Text, eqb, is_some}
use express_send.Text.Sort.{sort_keys}
use express_send.Config.Types.{Config, BotEntry, ChatEntry}
use express_send.Config.Bots.{bot_entries, chat_entries}
use express_send.Queue.Types.{CatalogSnapshot}

-- The name and what the catalog has instead.
pub data CatalogError : Type 0 where
  no_such_bot no_such_chat : Text → List Text → CatalogError

-- `BuildCatalogSnapshot`.
unfoldable pub build_catalog_snapshot : (ℕ → ℕ → Text) → ℕ → Config → CatalogSnapshot
unfolding bot_entries chat_entries
build_catalog_snapshot revision now c = record {
  revision = revision now (length (bot_entries c.bots) + length (chat_entries c.chats));
  generated_at = now;
  bots = bot_entries c.bots;
  chats = chat_entries c.chats;
}

unfoldable pub find_bot : Text → List BotEntry → Option BotEntry
find_bot alias [] = none
find_bot alias (b ∷ bots) = if eqb b.name alias then some b else find_bot alias bots

-- `CatalogSnapshot.ResolveBot`.
unfoldable pub resolve_bot : CatalogSnapshot → Text → Result CatalogError BotEntry
unfolding find_bot
resolve_bot s alias = elim (find_bot alias s.bots) [
  | some b ↦ ok b
  | none ↦ err (no_such_bot alias (map (λ (b : BotEntry). b.name) s.bots))
]

unfoldable pub find_chat : Text → List ChatEntry → Option ChatEntry
find_chat alias [] = none
find_chat alias (c ∷ chats) = if eqb c.name alias then some c else find_chat alias chats

-- `CatalogSnapshot.ResolveChat`.
unfoldable pub resolve_chat : CatalogSnapshot → Text → Result CatalogError ChatEntry
unfolding find_chat
resolve_chat s alias = elim (find_chat alias s.chats) [
  | some c ↦ ok c
  | none ↦ err (no_such_chat alias (map (λ (c : ChatEntry). c.name) s.chats))
]

-- `CatalogSnapshot.DefaultChat`.
unfoldable pub default_entry : List ChatEntry → Option ChatEntry
default_entry [] = none
default_entry (c ∷ chats) = if c.default then some c else default_entry chats

-- `CatalogSnapshot.ResolveBotByID`.
unfoldable pub find_bot_id : Text → List BotEntry → Option BotEntry
find_bot_id id [] = none
find_bot_id id (b ∷ bots) = if eqb b.id id then some b else find_bot_id id bots

-- `CatalogCache`; a `max_age` of 0 stands for no expiry, a path of "" for no file.
pub record CatalogCache : Type 0 where
  pub snapshot : Option CatalogSnapshot
  pub max_age : ℕ
  pub path : Text

abbrev pub Disk : Type 0
Disk = Text → Option CatalogSnapshot

-- `NewCatalogCache`.
unfoldable pub new_catalog_cache : Disk → Text → ℕ → CatalogCache
unfolding eqb
new_catalog_cache disk path max_age = record {
  snapshot = if not (eqb path []) then disk path else none;
  max_age = max_age;
  path = path;
}

-- `CatalogCache.Update`: the cache and the files after it; `saved` tells whether the file is
-- written.
unfoldable pub update : Bool → CatalogSnapshot → CatalogCache × Disk → CatalogCache × Disk
unfolding eqb
update saved snap (cc, disk) = (
  record cc { snapshot = some snap },
  if not (eqb cc.path []) && saved
      then (λ p. if eqb p cc.path then some snap else disk p)
      else disk,
)

-- `CatalogCache.Get`.
unfoldable pub get : ℕ → CatalogCache → Option CatalogSnapshot
get now cc = elim cc.snapshot [
  | none ↦ none
  | some s ↦ if ltb 0 cc.max_age && ltb cc.max_age (now - s.generated_at) then none else some s
]

-- `CatalogCache.HasValidSnapshot`.
unfoldable pub has_valid_snapshot : ℕ → CatalogCache → Bool
unfolding get
has_valid_snapshot now cc = is_some (get now cc)
