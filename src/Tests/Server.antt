-- ===== src/Tests/Server.antt =====
-- The theorems on authentication, fan-out, the alert webhooks, the send endpoint and the
-- callbacks at concrete inputs.
use express_send.Common.{
  ◌>>=◌, ℕ, Bool, true, false, if◌then◌else◌, Option, none, some, List, [], ◌∷◌, ◌≡◌, ◌≢◌, ◌↔◌,
  refl, Result, ok, err, All,
}
use express_send.Text.{Text, codes, eqb, cut_prefix, lookup}
use express_send.Mentions.Parse.{Outside}
use express_send.Server.Types.{Context, ChatResult, SendPayload}
use express_send.Server.Bots.{BotConfig, resolve_request_bot}
use express_send.Server.Bots.Laws.{Asks, SendsBy, resolve_request_bot_iff}
use express_send.Server.MultiSend.{Pipeline, fanout_send}
use express_send.Server.MultiSend.Laws.{Attempts, fanout_send-Attempts}
use express_send.Server.Auth.{
  Credentials, AuthConfig, extract_key, match_key, auth_middleware, authorize_targets,
}
use express_send.Server.Auth.Laws.{
  Admissible, authorize_targets_iff, Admits, auth_middleware-Admits,
}
use express_send.Server.Auth.Hiding.{Hides}
use express_send.Server.Notify.Hiding.{handle_alertmanager-Hides}
use express_send.Server.Send.Hiding.{handle_send-Hides}
use express_send.Server.Notify.{
  WebhookRequest, AlertmanagerWebhook, AlertmanagerConfig, GrafanaConfig, handle_alertmanager,
}
use express_send.Server.Notify.Laws.{InScope, handle_alertmanager-InScope}
use express_send.Server.Form.{JsonReader}
use express_send.Server.Send.{
  SendConfig, SendRequest, json_body, read_body, check_payload, check_mentions, check_chat,
  check_content, check_status, handle_send,
}
use express_send.Server.Send.Laws.{handle_send-InScope, Queueable, handle_send-Queueable}
use express_send.Server.Callbacks.{
  RouterRule, CallbackPayload, parse_event_type, route, calls_for, handle_command, listens,
}
use express_send.Server.Callbacks.Laws.{Routed, route-Routed}

abbrev ops_id : Text
ops_id = codes "11111111-1111-1111-1111-111111111111"

abbrev chats_of : Text → Result Text ChatResult
chats_of t =
    if eqb t (codes "ops")
    then ok (record { chat_id = ops_id; bot = [] })
    else err (codes "unknown chat")

abbrev two_bots : BotConfig
two_bots = record { bot_names = codes "main" ∷ codes "alerts" ∷ []; single_bot_name = [] }

abbrev pipe : Pipeline
pipe = record { bots = two_bots; chats = chats_of; send = λ sent p. ok (codes "sync-1") }

-- A key that may address the chat of "ops", and a caller that is bound to a bot.
abbrev ops_key : Context
ops_key = record { key_name = codes "ci"; auth_bot = []; key_scope = ops_id ∷ [] }

abbrev bound : Context
bound = record { key_name = codes "bot_secret"; auth_bot = codes "main"; key_scope = [] }

ops_key_scoped : ops_id ∷ [] ≢ []
ops_key_scoped e = cc

-- The identity serves for a text that is in lower case.
abbrev lower : Text → Text
lower t = t

resolve_request_bot_iff_example :
    (resolve_request_bot two_bots bound [] (codes "main") ≡ ok (codes "main"))
    ↔ ((asked : Text) × Asks [] (codes "main") asked × SendsBy two_bots bound asked (codes "main"))
resolve_request_bot_iff_example =
    resolve_request_bot_iff two_bots bound [] (codes "main") (codes "main")

fanout_send-Attempts_example :
    Attempts pipe bound []
      (codes "hi")
      (codes "ok")
      (codes "ops" ∷ codes "dev" ∷ [])
      []
      (fanout_send pipe bound
        (codes "ops" ∷ codes "dev" ∷ [])
        []
        (codes "hi")
        (codes "ok")
        []).results
      (fanout_send pipe bound (codes "ops" ∷ codes "dev" ∷ []) [] (codes "hi") (codes "ok") []).errs
      (fanout_send pipe bound
        (codes "ops" ∷ codes "dev" ∷ [])
        []
        (codes "hi")
        (codes "ok")
        []).state
fanout_send-Attempts_example =
    fanout_send-Attempts pipe bound [] (codes "hi") (codes "ok") (codes "ops" ∷ codes "dev" ∷ []) []

authorize_targets_iff_example :
    (authorize_targets lower chats_of ops_key (codes "ops" ∷ []) true ≡ none)
    ↔ All (Admissible lower chats_of ops_key true) (codes "ops" ∷ [])
authorize_targets_iff_example =
    authorize_targets_iff lower chats_of ops_key true (codes "ops" ∷ []) ops_key_scoped

abbrev auth : AuthConfig
auth = record {
  key_map = (codes "k1", record { name = codes "ci"; chats = ops_id ∷ [] }) ∷ [];
  allow_bot_secret_auth = false;
  bot_signatures = [];
}

abbrev with_key : Credentials
with_key = record { authorization = codes "Bearer k1"; x_api_key = []; x_bot_signature = [] }

key_admitted : auth_middleware auth with_key ≡ ok ops_key
unfolding auth_middleware match_key extract_key cut_prefix lookup eqb
key_admitted = refl

auth_middleware-Admits_example : Admits auth with_key ops_key
auth_middleware-Admits_example = auth_middleware-Admits auth with_key ops_key key_admitted

abbrev webhook : WebhookRequest
webhook = record { body = codes "{}"; chat_id = none; bot = codes "main" }

abbrev critical : AlertmanagerWebhook
critical = record { status = codes "firing"; alerts = record { severity = codes "critical" } ∷ [] }

abbrev alertmanager : AlertmanagerConfig
alertmanager = record {
  default_chat_id = codes "ops";
  error_severities = codes "critical" ∷ [];
  fallback_chat_id = [];
  decode = λ body. ok critical;
  execute = λ w. ok (codes "alert");
}

abbrev grafana : GrafanaConfig
grafana = record {
  default_chat_id = codes "ops";
  error_states = codes "alerting" ∷ [];
  fallback_chat_id = [];
  decode = λ body. ok (record {
    status = codes "firing";
    state = codes "alerting";
    alerts = record { severity = [] } ∷ [];
  });
  execute = λ w. ok (codes "alert");
}

handle_alertmanager-InScope_example :
    All
      (InScope lower ops_key)
      (handle_alertmanager lower pipe ops_key [] (some alertmanager) webhook []).1
handle_alertmanager-InScope_example =
    handle_alertmanager-InScope lower pipe ops_key [] (some alertmanager) webhook ops_key_scoped

handle_alertmanager-Hides_example :
    Hides (handle_alertmanager lower pipe ops_key [] (some alertmanager) webhook []).0
handle_alertmanager-Hides_example =
    handle_alertmanager-Hides lower pipe ops_key [] (some alertmanager) webhook [] ops_key_scoped

abbrev config : Bool → SendConfig
config async = record {
  async_mode = async;
  default_chat_alias = [];
  default_routing_mode = [];
  max_file_size = 0;
}

abbrev outside : Outside
outside = record {
  max_mentions = 50;
  lookup_user = none;
  new_mention_id = λ k. codes "id";
  unmarshal_array = λ s. [];
  marshal_entry = λ e. codes "{}";
  marshal_array = λ es. codes "[]";
}

abbrev hello : SendPayload
hello = record {
  bot = codes "main";
  chat_id = codes "ops";
  message = codes "hello";
  file = none;
  status = codes "ok";
  opts = none;
  metadata = [];
  mentions = [];
  routing_mode = [];
  bot_id = [];
  no_parse = false;
}

abbrev json_reader : JsonReader
json_reader = record { unmarshal_opts = λ s. err (codes "no options"); valid = λ s. true }

abbrev hello_request : SendRequest
hello_request = record { body = json_body (ok hello); no_parse = false }

handle_send-InScope_example :
    All
      (InScope lower ops_key)
      (handle_send lower pipe ops_key (config false) json_reader outside [] hello_request []).1
handle_send-InScope_example =
    handle_send-InScope lower pipe ops_key (config false) json_reader outside [] hello_request refl
      ops_key_scoped

hello_accepted :
    (read_body json_reader (json_body (ok hello)) >>= check_payload (config true)) ≡ ok hello
unfolding read_body check_payload check_mentions check_chat check_content check_status eqb
hello_accepted = refl

handle_send-Hides_example :
    Hides (handle_send lower pipe ops_key (config true) json_reader outside [] hello_request []).0
handle_send-Hides_example =
    handle_send-Hides lower pipe ops_key (config true) json_reader outside [] hello_request hello []
      ops_key_scoped hello_accepted

handle_send-Queueable_example :
    All
      (Queueable lower pipe ops_key (config true) hello)
      (handle_send lower pipe ops_key (config true) json_reader outside [] hello_request []).1
handle_send-Queueable_example =
    handle_send-Queueable lower pipe ops_key (config true) json_reader outside [] hello_request
      hello refl hello_accepted

-- A handler is known by a number.
abbrev rules : List (RouterRule ℕ)
rules =
    record { events = codes "chat_created" ∷ []; handler = 1; async = false }
    ∷ record { events = codes "*" ∷ []; handler = 2; async = true }
    ∷ []

route-Routed_example : Routed (codes "message") rules (route rules (codes "message"))
route-Routed_example = route-Routed rules (codes "message")

abbrev callback : CallbackPayload
callback = record {
  sync_id = codes "s1";
  bot_id = codes "b1";
  group_chat_id = ops_id;
  command_body = codes "/help";
}

abbrev unmarshal : Text → Option CallbackPayload
unmarshal body = some callback

called_back : (handle_command rules unmarshal (codes "b1") (some (codes "{}"))).1 ≢ []
unfolding handle_command parse_event_type route listens calls_for eqb cut_prefix
called_back e = cc
