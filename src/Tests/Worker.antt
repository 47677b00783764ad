-- ===== src/Tests/Worker.antt =====
-- The theorems on the worker at concrete inputs.
use express_send.Common.{
  ◌+◌, ◌*◌, ◌≤◌, ◌<◌, leb, true, false, if◌then◌else◌, none, some, [], ◌∷◌, ◌≡◌, refl, ok, err,
  arith,
}
use express_send.Text.{Text, codes, eqb, lookup, cut_prefix}
use express_send.Text.Laws.{neq_of_eqb}
use express_send.Mentions.Parse.{Outside}
use express_send.Config.Types.{BotSettings, Config}
use express_send.Config.Bots.{Bots, bot_by_id, cache_key}
use express_send.Config.Secret.{resolve, resolve_env, resolve_vault}
use express_send.Queue.Types.{WorkMessage}
use express_send.Token.Cache.{file_get}
use express_send.Token.Auth.{
  History, sent_with, Answer, delivered, unauthorized_, failed, Machine, Botx, new_cache, cache_get,
}
use express_send.Token.Auth.Laws.{sends}
use express_send.Worker.{
  SendParams, persistent_401, Runner, WorkerState, finished, get_or_create_client, bot_config,
  handle_message, send_loop, build_send_request,
}
use express_send.Worker.Laws.{confirmations}
use express_send.Worker.Laws.Handle.{acknowledged, request_of, handle_message_once}
use express_send.Worker.Laws.Recovery.{send_loop_recovers, send_loop_stale}

abbrev main_bot : BotSettings
main_bot = record {
  host = codes "x.example";
  id = codes "b1";
  secret = codes "s1";
  token = [];
  timeout = 9223372036854775813;
}

abbrev bots : Bots
bots = (codes "main", main_bot) ∷ []

-- A cache in a file, and an API that issues "new".
abbrev botx : Botx
botx = record {
  getenv = λ name. [];
  read_vault = λ addr token path key. err (codes "no vault");
  build_signature = λ id secret. codes "sig";
  issue = λ h host id sig. ok (codes "new");
  vault_get = λ h key. [];
  now = λ h. 100;
  writable = true;
}

abbrev no_users : Outside
no_users = record {
  max_mentions = 10;
  lookup_user = none;
  new_mention_id = λ n. [];
  unmarshal_array = λ t. [];
  marshal_entry = λ e. [];
  marshal_array = λ xs. [];
}

abbrev runner : (History → Text → SendParams → Answer) → Runner
runner send = record {
  botx = botx;
  send = send;
  bots = bots;
  cache = record {
    cache_type = codes "file";
    file_path = [];
    vault_url = [];
    vault_path = [];
    ttl = 1000;
  };
  retry_count = 3;
  resolver_of = λ bc h. no_users;
  lookup_requests = λ bc text h. 0;
  cancelled = λ i. false;
  error_text = λ e. codes "failed";
  unknown_text = λ e. codes "unknown bot";
}

abbrev message : WorkMessage
message = record {
  request_id = codes "q1";
  routing = record {
    host = [];
    bot_id = codes "b1";
    chat_id = codes "c1";
    bot_name = [];
    chat_alias = [];
    catalog_revision = [];
  };
  payload = record {
    message = codes "hi";
    status = [];
    file = none;
    opts = record {
      silent = false;
      stealth = false;
      force_dnd = false;
      no_notify = false;
      no_parse = true;
    };
    metadata = [];
    mentions = [];
  };
  reply_to = codes "reply";
  enqueued_at = 90;
}

abbrev start : WorkerState
start = record { clients = []; machine = record { file = none; history = [] } }

abbrev accept : History → Text → SendParams → Answer
accept h token sr = delivered (codes "sync-1")

handle_message_once_example :
    (sends (handle_message (runner accept) false message start).1.machine.history
      ≤ 2 * 3 + 2 + sends [])
    × (confirmations accept
          (request_of
            (runner accept)
            (get_or_create_client (runner accept) (codes "main") main_bot [])
            message
            start.machine)
          (handle_message (runner accept) false message start).1.machine.history
        ≡ acknowledged (handle_message (runner accept) false message start).0
          + confirmations accept
              (request_of
                (runner accept)
                (get_or_create_client (runner accept) (codes "main") main_bot [])
                message
                start.machine)
              [])
unfolding bot_by_id eqb
handle_message_once_example =
    handle_message_once (runner accept) message start (codes "main") main_bot refl

-- An API that fails on the first two messages.
abbrev flaky : History → Text → SendParams → Answer
flaky h token sr = if leb 2 (sends h) then delivered (codes "sync-1") else failed (codes "HTTP 503")

abbrev params : SendParams
params = build_send_request message

abbrev cfg : Config
cfg = bot_config (runner accept) (codes "main") main_bot

abbrev fresh : Machine
fresh = record { file = none; history = [] }

flaky_down : (h : History) → sends h < 2 → (why : Text) × (flaky h (codes "t") params ≡ failed why)
flaky_down h lt = (codes "HTTP 503", ground arith)

flaky_up : (h : History) → 2 ≤ sends h → flaky h (codes "t") params ≡ delivered (codes "sync-1")
flaky_up h le = ground arith

send_loop_recovers_example :
    (send_loop (runner flaky) params (codes "main") cfg 3 0 (codes "t") fresh).result
    ≡ finished (ok (codes "sync-1"))
unfolding eqb
send_loop_recovers_example =
    send_loop_recovers (runner flaky) params (codes "main") cfg (codes "t")
      (neq_of_eqb (codes "t") [] refl) (λ i. refl) (codes "sync-1") 2 flaky_down flaky_up 3 0 fresh
      (omega arith)

-- A cache that holds the token "t", which the API refuses.
abbrev stale : Machine
stale = record {
  file = some ((codes "x.example:b1", record { token = codes "t"; expires = 500 }) ∷ []);
  history = [];
}

abbrev only_new : History → Text → SendParams → Answer
only_new h token sr = if eqb token (codes "new") then delivered (codes "sync-1") else unauthorized_

send_loop_stale_example :
    ((send_loop (runner only_new) params (codes "main") cfg 3 0 (codes "t") stale).result
      ≡ finished (err (persistent_401 (codes "main"))))
    × ((send_loop (runner only_new) params (codes "main") cfg 3 0 (codes "t") stale).machine.history
        ≡ sent_with (codes "t") ∷ sent_with (codes "t") ∷ [])
unfolding eqb lookup file_get cache_get new_cache cache_key resolve resolve_env resolve_vault
    cut_prefix
send_loop_stale_example =
    send_loop_stale (runner only_new) params (codes "main") cfg (codes "t")
      (neq_of_eqb (codes "t") [] refl) (λ i. refl) (codes "s1") 3 0 stale refl refl (λ h. refl)
      (λ h. refl)
