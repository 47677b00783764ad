-- ===== src/Worker.antt =====
-- The worker: `handleMessage` and what it calls, internal/cmd/worker.go. Waiting between attempts
-- is left out; `cancelled` tells whether the context ends during the wait before an attempt.
pub mod Laws
pub mod Request
use express_send.Common.{
  ℕ, zero, suc, ltb, Bool, true, false, ◌&&◌, ◌||◌, not, if◌then◌else◌, Option, none, some, List,
  [], ◌∷◌, Result, ok, err,
}
use express_send.Text.{Text, codes, eqb, lookup, map_set}
use express_send.Mentions.Parse.{Outside, parse_message}
use express_send.Config.Types.{BotSettings, CacheSettings, Config, ConfigError}
use express_send.Config.Bots.{Bots, bot_by_id}
use express_send.Queue.Types.{FileAttachment, DeliveryOpts, WorkPayload, WorkMessage, WorkResult}
use express_send.Token.Auth.{
  Event, requested, sent_with, published, History, Answer, delivered, unauthorized_, failed,
  Machine, Botx, authenticate,
}

-- `SendParams`, as `buildSendRequestFromWork` fills it.
pub record SendParams : Type 0 where
  pub chat_id : Text
  pub message : Text
  pub status : Text
  pub file : Option FileAttachment
  pub metadata : Text
  pub mentions : Text
  pub silent : Bool
  pub stealth : Bool
  pub force_dnd : Bool
  pub no_notify : Bool

unfoldable pub build_send_request : WorkMessage → SendParams
unfolding eqb
build_send_request msg = record {
  chat_id = msg.routing.chat_id;
  message = msg.payload.message;
  status = if eqb msg.payload.status [] then codes "ok" else msg.payload.status;
  file = msg.payload.file;
  metadata = msg.payload.metadata;
  mentions = msg.payload.mentions;
  silent = msg.payload.opts.silent;
  stealth = msg.payload.opts.stealth;
  force_dnd = msg.payload.opts.force_dnd;
  no_notify = msg.payload.opts.no_notify;
}

-- `workerBotClient`: the token of the client, "" at first, and the configuration of the bot.
pub record Client : Type 0 where
  pub token : Text
  pub cfg : Config

pub data WorkError : Type 0 where
  authenticating rejected_token refresh_failed persistent_401 : Text → WorkError
  sending : Text → WorkError
  cancelled_ : WorkError

-- What the worker is given: the answer of the API to a request by its history.
pub record Runner : Type 0 where
  pub botx : Botx
  pub send : History → Text → SendParams → Answer
  pub bots : Bots
  pub cache : CacheSettings
  pub retry_count : ℕ
  pub resolver_of : Client → History → Outside
  -- How often the lookup of the users of a message asks for a token, which it does not put in a cache.
  pub lookup_requests : Client → Text → History → ℕ
  pub cancelled : ℕ → Bool
  pub error_text : WorkError → Text
  pub unknown_text : ConfigError → Text

-- What an attempt ends with: a result, or an error that another attempt may follow.
pub data Attempt : Type 0 where
  stop : Result WorkError Text → Attempt
  again : WorkError → Attempt

-- An attempt, the token of the client after it, and the machine.
pub record Tried : Type 0 where
  pub outcome : Attempt
  pub token : Text
  pub machine : Machine

-- What the loop ends with: the end of the context during a wait, or the last outcome.
pub data Loop : Type 0 where
  interrupted : Loop
  finished : Result WorkError Text → Loop

-- The end of the loop, the token of the client and the machine.
pub record Sending : Type 0 where
  pub result : Loop
  pub token : Text
  pub machine : Machine

module _ (w : Runner) (sr : SendParams) (name : Text) (c : Config) where
  -- `SendWithSyncID`.
  abbrev pub sent : Text → Machine → Machine
  sent token m = record m { history = sent_with token ∷ m.history }

  -- The message again, with the token of the refresh.
  unfoldable pub send_again : Text → Machine → Tried
  send_again token m = elim (w.send m.history token sr) [
    | delivered id ↦ record { outcome = stop (ok id); token = token; machine = sent token m }
    | unauthorized_ ↦ record {
      outcome = stop (err (persistent_401 name));
      token = token;
      machine = sent token m;
    }
    | failed why ↦ record { outcome = again (sending why); token = token; machine = sent token m }
  ]

  -- After a 401: a static token is final, any other is asked for again.
  unfoldable pub after_401 : Text → Machine → Tried
  unfolding send_again
  after_401 token m =
      let (answer, m') = authenticate w.botx c m in
      let refreshed : Tried = elim answer [
        | err why ↦ record {
          outcome = stop (err (refresh_failed name));
          token = token;
          machine = m';
        }
        | ok fresh ↦ send_again fresh m'
      ] in
      if not (eqb c.bot_token [])
      then record { outcome = stop (err (rejected_token name)); token = token; machine = m }
      else refreshed

  unfoldable pub send_once : Text → Machine → Tried
  unfolding after_401
  send_once token m =
      let refused = after_401 token (sent token m) in
      elim (w.send m.history token sr) [
        | delivered id ↦ record { outcome = stop (ok id); token = token; machine = sent token m }
        | failed why ↦ record {
          outcome = again (sending why);
          token = token;
          machine = sent token m;
        }
        | unauthorized_ ↦ refused
      ]

  -- The body of the loop after the wait.
  unfoldable pub attempt : Text → Machine → Tried
  unfolding send_once
  attempt token m =
      let with_token = send_once token m in
      let (answer, m') = authenticate w.botx c m in
      let first : Tried = elim answer [
        | err why ↦ record { outcome = again (authenticating name); token = token; machine = m' }
        | ok tok ↦ send_once tok m'
      ] in
      if eqb token [] then first else with_token

  abbrev pub ended : Loop → Tried → Sending
  ended r t = record { result = r; token = t.token; machine = t.machine }

  abbrev stopped : Text → Machine → Sending
  stopped token m = record { result = interrupted; token = token; machine = m }

  -- The loop from attempt `i` on, with `left` attempts after this one.
  unfoldable pub send_loop : ℕ → ℕ → Text → Machine → Sending
  unfolding attempt
  send_loop zero i token m =
      let t = attempt token m in
      let last : Sending = elim t.outcome [
        | stop r ↦ ended (finished r) t
        | again e ↦ ended (finished (err e)) t
      ] in
      if ltb 0 i && w.cancelled i then stopped token m else last
  send_loop (suc left) i token m =
      let t = attempt token m in
      let more = send_loop left (suc i) t.token t.machine in
      let next : Sending = elim t.outcome [ stop r ↦ ended (finished r) t | again e ↦ more ] in
      if ltb 0 i && w.cancelled i then stopped token m else next

-- The worker's state: its clients by bot id, and the machine.
pub record WorkerState : Type 0 where
  pub clients : List (Text × Client)
  pub machine : Machine

-- `publishResult`; `clock` is the time of the result.
unfoldable pub publish_result : (History → ℕ) → WorkMessage → Text → Text → Text → Machine → Machine
unfolding eqb
publish_result clock msg status sync_id error m =
    let result : WorkResult = record {
      request_id = msg.request_id;
      status = status;
      sync_id = sync_id;
      error = error;
      sent_at = clock m.history;
    } in
    if eqb msg.reply_to [] then m else record m { history = published result ∷ m.history }

-- Requests for a token, one after the other.
unfoldable pub add_requests : ℕ → Config → History → History
add_requests zero c h = h
add_requests (suc n) c h = requested c.host c.bot_id ∷ add_requests n c h

module _ (w : Runner) where
  -- The configuration of a client.
  abbrev pub bot_config : Text → BotSettings → Config
  bot_config name bot = record {
    bots = [];
    chats = [];
    cache = w.cache;
    host = bot.host;
    bot_id = bot.id;
    bot_secret = bot.secret;
    bot_token = bot.token;
    bot_name = name;
    bot_timeout = bot.timeout;
    chat_id = [];
    format = [];
    multi_bot = false;
    no_cache = false;
    routing_mode = [];
    queue_driver = [];
  }

  -- `getOrCreateClient`.
  unfoldable pub get_or_create_client : Text → BotSettings → List (Text × Client) → Client
  unfolding lookup
  get_or_create_client name bot clients = elim (lookup bot.id clients) [
    | some bc ↦ bc
    | none ↦ record { token = []; cfg = bot_config name bot }
  ]

  -- The message with its inline mentions parsed, and the machine after the lookup of the users.
  unfoldable pub parse_work : Client → WorkMessage → Machine → WorkMessage × Machine
  unfolding parse_message add_requests
  parse_work bc msg m =
      let parsed =
        parse_message (w.resolver_of bc m.history) msg.payload.message msg.payload.mentions true in
      let asked = w.lookup_requests bc msg.payload.message m.history in
      if not msg.payload.opts.no_parse
      then (
        record msg {
          payload = record msg.payload { message = parsed.message; mentions = parsed.mentions };
        },
        record m { history = add_requests asked bc.cfg m.history },
      )
      else (msg, m)

  -- The end of `handleMessage`: the result is published, and an error is returned.
  unfoldable pub conclude : WorkMessage → Loop → Machine → Option WorkError × Machine
  unfolding publish_result
  conclude msg interrupted m = (some cancelled_, m)
  conclude msg (finished (err e)) m =
      (some e, publish_result w.botx.now msg (codes "failed") [] (w.error_text e) m)
  conclude msg (finished (ok id)) m = (none, publish_result w.botx.now msg (codes "sent") id [] m)

  -- `handleMessage`: the error that it returns, for which the driver rejects the message, and the
  -- state after it.
  unfoldable pub handle_message : Bool → WorkMessage → WorkerState → Option WorkError × WorkerState
  unfolding bot_by_id get_or_create_client parse_work build_send_request send_loop conclude
      publish_result
  handle_message dry_run msg st = elim (bot_by_id msg.routing.bot_id w.bots) [
    | err why ↦ (
      none,
      record st {
        machine = publish_result w.botx.now msg (codes "failed") [] (w.unknown_text why) st.machine;
      },
    )
    | ok (name, bot) ↦
        let bc = get_or_create_client name bot st.clients in
        let (msg', m) = parse_work bc msg st.machine in
        let s = send_loop w (build_send_request msg') name bc.cfg w.retry_count 0 bc.token m in
        let done = conclude msg' s.result s.machine in
        if dry_run
        then (
          none,
          record {
            clients = map_set bot.id bc st.clients;
            machine = publish_result w.botx.now msg' (codes "dry-run") [] [] m;
          },
        )
        else (
          done.0,
          record {
            clients = map_set bot.id (record bc { token = s.token }) st.clients;
            machine = done.1;
          },
        )
  ]
