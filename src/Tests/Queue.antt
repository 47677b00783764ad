-- ===== src/Tests/Queue.antt =====
-- The theorems on the queue at concrete inputs.
use express_send.Common.{
  ℕ, true, false, Option, none, some, [], ◌∷◌, ◌≡◌, ◌≢◌, ◌↔◌, ◌⊎◌, refl, ok, err, ◌++◌,
}
use express_send.Text.{Text, codes, eqb}
use express_send.Text.Query.{is_hex}
use express_send.Text.Sort.{text_leb, insert_key, sort_keys}
use express_send.Server.Types.{hex_run, uuid_groups, is_uuid}
use express_send.Config.Types.{Config}
use express_send.Config.Bots.{bot_entries, chat_entries}
use express_send.Queue.Types.{Routing, WorkPayload, WorkMessage, CatalogSnapshot}
use express_send.Queue.Catalog.{
  build_catalog_snapshot, find_bot, resolve_bot, find_chat, resolve_chat, find_bot_id, CatalogCache,
  Disk, new_catalog_cache, get,
}
use express_send.Queue.Catalog.Laws.{
  IsKnown, route_by-IsKnown, update_all, fresh_at, get-update_all,
}
use express_send.Queue.Enqueue.Routes.{
  Producer, EnqueueError, chat_part, named_bot, bot_part, route_by,
}
use express_send.Queue.Enqueue.{Output, Failed, enqueue_targets, run_enqueue}
use express_send.Queue.Enqueue.Laws.{Publishes, run_enqueue-Publishes}

abbrev cfg : Config
cfg = record {
  bots =
      (
        codes "main",
        record {
          host = codes "x.example";
          id = codes "b1";
          secret = codes "s";
          token = [];
          timeout = 9223372036854775813;
        },
      )
      ∷ [];
  chats = (codes "ops", record { id = codes "c1"; bot = codes "main"; default = true }) ∷ [];
  cache = record { cache_type = []; file_path = []; vault_url = []; vault_path = []; ttl = 0 };
  host = [];
  bot_id = [];
  bot_secret = [];
  bot_token = [];
  bot_name = [];
  bot_timeout = 9223372036854775808;
  chat_id = [];
  format = [];
  multi_bot = false;
  no_cache = false;
  routing_mode = [];
  queue_driver = [];
}

abbrev revision_of : ℕ → ℕ → Text
revision_of now n = codes "r1"

abbrev snapshot : CatalogSnapshot
snapshot = build_catalog_snapshot revision_of 100 cfg

abbrev ops_route : Routing
ops_route = record {
  host = codes "x.example";
  bot_id = codes "b1";
  chat_id = codes "c1";
  bot_name = codes "main";
  chat_alias = codes "ops";
  catalog_revision = codes "r1";
}

-- The alias of a chat gives its bot too.
route_by-IsKnown_example :
    (ops_route.chat_id ≢ [])
    × (((is_uuid [] ≡ true) × (ops_route.bot_id ≡ [])) ⊎ IsKnown cfg.bots ops_route.bot_id)
unfolding eqb is_hex hex_run uuid_groups is_uuid sort_keys insert_key text_leb bot_entries
    chat_entries build_catalog_snapshot find_bot resolve_bot find_chat resolve_chat find_bot_id
    chat_part named_bot bot_part route_by
route_by-IsKnown_example = route_by-IsKnown revision_of 100 cfg [] [] (codes "ops") ops_route refl

abbrev no_disk : Disk
no_disk path = none

abbrev cache : CatalogCache
cache = record { snapshot = none; max_age = 60; path = codes "catalog.json" }

abbrev old : CatalogSnapshot
old = record snapshot { generated_at = 10 }

get-update_all_example :
    (get 120 (update_all (((false, old) ∷ []) ++ (true, snapshot) ∷ []) (cache, no_disk)).0
      ≡ fresh_at 120 60 snapshot)
    × (codes "catalog.json" ≢ []
        → true ≡ true
        → get 120 (
            new_catalog_cache
              (update_all (((false, old) ∷ []) ++ (true, snapshot) ∷ []) (cache, no_disk)).1
              (codes "catalog.json")
              60)
          ≡ fresh_at 120 60 snapshot)
get-update_all_example = get-update_all ((false, old) ∷ []) true snapshot (cache, no_disk) 120

abbrev producer : Producer
producer = record {
  mode = codes "mixed";
  bot_id = [];
  bot_alias = [];
  max_age = [];
  cache_file = codes "catalog.json";
  parse_duration = λ s. none;
  disk = λ path. some snapshot;
  now = 120;
}

abbrev payload : WorkPayload
payload = record {
  message = codes "hi";
  status = codes "ok";
  file = none;
  opts = record {
    silent = false;
    stealth = false;
    force_dnd = false;
    no_notify = false;
    no_parse = false;
  };
  metadata = [];
  mentions = [];
}

abbrev id_of : ℕ → Text
id_of i = i ∷ []

abbrev clock : ℕ → ℕ
clock i = 120

abbrev accept : WorkMessage → Option Text
accept msg = none

-- A response is always written.
abbrev writes : Output → Option Text
writes out = none

run_enqueue-Publishes_example :
    ((why : EnqueueError) × ((run_enqueue producer id_of clock payload
          (codes "reply")
          accept
          writes
          (codes "json")
          (codes "ops,ops2")).1
        ≡ err why)
      × ((run_enqueue producer id_of clock payload
            (codes "reply")
            accept
            writes
            (codes "json")
            (codes "ops,ops2")).0
          ≡ []))
    ⊎ ((printed : Output × Option Failed) × ((run_enqueue producer id_of clock payload
            (codes "reply")
            accept
            writes
            (codes "json")
            (codes "ops,ops2")).1
          ≡ ok printed)
        × Publishes producer payload
            (codes "reply")
            accept
            (enqueue_targets (codes "ops,ops2"))
            (run_enqueue producer id_of clock payload
              (codes "reply")
              accept
              writes
              (codes "json")
              (codes "ops,ops2")).0
        × ((printed.1 ≡ none) ↔ (
            ((run_enqueue producer id_of clock payload
                (codes "reply")
                accept
                writes
                (codes "json")
                (codes "ops,ops2")).0
              ≢ [])
            × (codes "json" ≡ codes "json" → writes printed.0 ≡ none))))
run_enqueue-Publishes_example =
    run_enqueue-Publishes producer id_of clock payload (codes "reply") accept writes (codes "json")
      (codes "ops,ops2")
