-- ===== src/Queue/Enqueue/Routes.antt =====
-- The route of one target: the switch of `runEnqueue` and `resolveViaCatalog`,
-- internal/cmd/enqueue.go.
use express_send.Common.{
  ℕ, ◌&&◌, not, if◌then◌else◌, Option, none, some, [], Result, ok, err, ◌>>=◌,
}
use express_send.Text.{Text, codes, eqb}
use express_send.Server.Types.{is_uuid}
use express_send.Queue.Types.{Routing, CatalogSnapshot}
use express_send.Queue.Catalog.{
  CatalogError, resolve_bot, resolve_chat, find_bot_id, Disk, new_catalog_cache, get,
}

-- What the command has of the configuration, the flags and the machine.
pub record Producer : Type 0 where
  pub mode : Text
  pub bot_id : Text
  pub bot_alias : Text
  pub max_age : Text
  pub cache_file : Text
  pub parse_duration : Text → Option ℕ
  pub disk : Disk
  pub now : ℕ

pub data EnqueueError : Type 0 where
  bot_id_required chat_id_required bot_required no_catalog : EnqueueError
  bot_id_not_uuid chat_id_not_uuid invalid_max_age : Text → EnqueueError
  unresolved : CatalogError → EnqueueError

-- The expiry of the catalog.
unfoldable pub catalog_max_age : Producer → Result EnqueueError ℕ
catalog_max_age p =
    let parsed : Result EnqueueError ℕ = elim (p.parse_duration p.max_age) [
      | some age ↦ ok age
      | none ↦ err (invalid_max_age p.max_age)
    ] in
    if not (eqb p.max_age []) then parsed else ok 0

-- The chat of a target: its id, its alias, and the alias of the bot after it.
unfoldable pub chat_part :
    CatalogSnapshot → Text → Text → Text → Result EnqueueError (Text × Text × Text)
unfolding is_uuid resolve_chat
chat_part snap bot_id bot_alias chat_id =
    let found : Result EnqueueError (Text × Text × Text) = elim (resolve_chat snap chat_id) [
      | err why ↦ err (unresolved why)
      | ok chat ↦ ok (
        chat.id,
        chat_id,
        if eqb bot_alias [] && eqb bot_id [] && not (eqb chat.bot []) then chat.bot else bot_alias,
      )
    ] in
    if not (eqb chat_id []) && not (is_uuid chat_id) then found else ok (chat_id, [], bot_alias)

-- A bot by its alias in the catalog.
unfoldable pub named_bot : CatalogSnapshot → Text → Result EnqueueError (Text × Text × Text)
unfolding resolve_bot
named_bot snap alias = elim (resolve_bot snap alias) [
  | err why ↦ err (unresolved why)
  | ok b ↦ ok (b.id, b.name, b.host)
]

-- The bot of a target: its id, name and host.
unfoldable pub bot_part : CatalogSnapshot → Text → Text → Result EnqueueError (Text × Text × Text)
unfolding is_uuid named_bot find_bot_id
bot_part snap bot_id bot_alias =
    let enriched : Result EnqueueError (Text × Text × Text) = elim (find_bot_id bot_id snap.bots) [
      | some b ↦ ok (bot_id, b.name, b.host)
      | none ↦ ok (bot_id, [], [])
    ] in
    let by_id = named_bot snap bot_id in
    let by_alias = named_bot snap bot_alias in
    if not (eqb bot_id []) && is_uuid bot_id
    then enriched
    else if not (eqb bot_id []) && not (is_uuid bot_id)
    then by_id
    else if not (eqb bot_alias [])
    then by_alias
    else err bot_required

-- The route by a snapshot.
unfoldable pub route_by : CatalogSnapshot → Text → Text → Text → Result EnqueueError Routing
unfolding chat_part bot_part
route_by snap bot_id bot_alias chat_id = chat_part snap bot_id bot_alias chat_id >>= λ c.
    bot_part snap bot_id c.2 >>= λ b.
    if eqb c.0 []
    then err chat_id_required
    else ok (record {
      host = b.2;
      bot_id = b.0;
      chat_id = c.0;
      bot_name = b.1;
      chat_alias = c.1;
      catalog_revision = snap.revision;
    })

-- `resolveViaCatalog`.
unfoldable pub resolve_via_catalog : Producer → Text → Result EnqueueError Routing
unfolding catalog_max_age new_catalog_cache get route_by
resolve_via_catalog p chat_id = catalog_max_age p >>= λ age.
    elim (get p.now (new_catalog_cache p.disk p.cache_file age)) [
      | none ↦ err no_catalog
      | some snap ↦ route_by snap p.bot_id p.bot_alias chat_id
    ]

-- A route that needs no catalog.
abbrev pub direct_route : Text → Text → Routing
direct_route bot_id chat_id = record {
  host = [];
  bot_id = bot_id;
  chat_id = chat_id;
  bot_name = [];
  chat_alias = [];
  catalog_revision = [];
}

-- The switch on the routing mode.
unfoldable pub resolve_target : Producer → Text → Result EnqueueError Routing
unfolding resolve_via_catalog is_uuid
resolve_target p chat_id =
    let by_catalog = resolve_via_catalog p chat_id in
    if eqb p.mode (codes "direct")
    then if eqb p.bot_id []
      then err bot_id_required
      else if not (is_uuid p.bot_id)
      then err (bot_id_not_uuid p.bot_id)
      else if eqb chat_id []
      then err chat_id_required
      else if not (is_uuid chat_id)
      then err (chat_id_not_uuid chat_id)
      else ok (direct_route p.bot_id chat_id)
    else if eqb p.mode (codes "mixed")
    then if not (eqb p.bot_id []) && not (eqb chat_id []) && is_uuid p.bot_id && is_uuid chat_id
      then ok (direct_route p.bot_id chat_id)
      else by_catalog
    else if eqb p.mode (codes "catalog")
    then by_catalog
    else ok (direct_route p.bot_id chat_id)
