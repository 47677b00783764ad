-- ===== src/Tests/Sender.antt =====
-- The theorems on the senders of the bots at concrete inputs.
use express_send.Common.{
  ◌+◌, ◌≤◌, true, false, none, some, [], ◌∷◌, ◌≡◌, ◌↔◌, refl, inl, inr, ok, err, if◌then◌else◌,
}
use express_send.Text.{Text, codes, eqb, cut_prefix}
use express_send.Text.Laws.{neq_of_eqb}
use express_send.Config.Types.{Config}
use express_send.Config.Secret.{resolve, resolve_env, resolve_vault}
use express_send.Server.Types.{SendPayload}
use express_send.Token.Auth.{in_file, requested, sent_with, delivered, unauthorized_, Machine}
use express_send.Token.Auth.Laws.{sends}
use express_send.Worker.{SendParams}
use express_send.Worker.Laws.{confirmations}
use express_send.Worker.Request.{build_request}
use express_send.Worker.Request.Laws.{read_params, HasNotification, read_params-build_request}
use express_send.Serve.BotSender.{BotSender, Api, params_of, send}
use express_send.Serve.BotSender.Laws.{delivered_once, confirmations-send, send_renews}

abbrev cfg : Config
cfg = record {
  bots = [];
  chats = [];
  cache = record {
    cache_type = codes "file";
    file_path = [];
    vault_url = [];
    vault_path = [];
    ttl = 1000;
  };
  host = codes "x.example";
  bot_id = codes "b1";
  bot_secret = codes "s1";
  bot_token = [];
  bot_name = [];
  bot_timeout = 9223372036854775808;
  chat_id = [];
  format = [];
  multi_bot = false;
  no_cache = false;
  routing_mode = [];
  queue_driver = [];
}

-- An API that issues "new" and takes no other token.
abbrev api : Api
api = record {
  botx = record {
    getenv = λ name. [];
    read_vault = λ addr token path key. err (codes "no vault");
    build_signature = λ id secret. codes "sig";
    issue = λ h host id sig. ok (codes "new");
    vault_get = λ h key. [];
    now = λ h. 100;
    writable = true;
  };
  send =
      λ h token sr. if eqb token (codes "new") then delivered (codes "sync-1") else unauthorized_;
  attachment = λ f. record { file_name = f.name; content = f.content };
}

abbrev payload : SendPayload
payload = record {
  bot = [];
  chat_id = codes "c1";
  message = codes "hi";
  file = none;
  status = codes "ok";
  opts = none;
  metadata = [];
  mentions = [];
  routing_mode = [];
  bot_id = [];
  no_parse = false;
}

abbrev stale : BotSender
stale = record { cfg = cfg; token = codes "old"; cache = some in_file }

abbrev start : Machine
start = record { file = none; history = [] }

confirmations-send_example :
    (sends (send api stale payload start).machine.history ≤ 2 + sends [])
    × (confirmations api.send (params_of api payload) (send api stale payload start).machine.history
        ≡ delivered_once (send api stale payload start).result
          + confirmations api.send (params_of api payload) [])
confirmations-send_example = confirmations-send api stale payload start

send_renews_example :
    ((send api stale payload start).token ≡ codes "new")
    × ((send api stale payload start).machine.history
        ≡ sent_with (codes "new")
          ∷ requested (codes "x.example") (codes "b1")
          ∷ sent_with (codes "old")
          ∷ [])
    × ((id : Text)
        → ((send api stale payload start).result ≡ ok id) ↔ (
            api.send
              (requested (codes "x.example") (codes "b1") ∷ sent_with (codes "old") ∷ [])
              (codes "new")
              (params_of api payload)
            ≡ delivered id))
unfolding eqb resolve resolve_env resolve_vault cut_prefix
send_renews_example =
    send_renews api stale payload start (codes "s1") (codes "new")
      (neq_of_eqb (codes "old") [] refl) refl refl refl refl

-- A file without a text, with metadata.
abbrev params : SendParams
params = record {
  chat_id = codes "c1";
  message = [];
  status = codes "ok";
  file = some (record { file_name = codes "a.txt"; content = codes "x" });
  metadata = codes "{}";
  mentions = [];
  silent = true;
  stealth = false;
  force_dnd = false;
  no_notify = true;
}

params-HasNotification : HasNotification params
unfolding HasNotification eqb
params-HasNotification = inr (inl (neq_of_eqb (codes "{}") [] refl))

read_params-build_request_example : read_params (build_request params) ≡ params
read_params-build_request_example = read_params-build_request params params-HasNotification
