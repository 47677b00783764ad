-- ===== src/Serve/BotSender.antt =====
-- The sender of a bot: `botSender` of internal/cmd/serve.go, with the token of its client, "" while
-- the bot is not authenticated. `attachment` is what botapi makes of a file.
pub mod Laws
use express_send.Common.{
  Bool, false, not, if◌then◌else◌, Option, none, some, [], ◌∷◌, Result, ok, err,
}
use express_send.Text.{Text, eqb}
use express_send.Config.Types.{Config}
use express_send.Server.Types.{OptsPayload, FilePayload, SendPayload}
use express_send.Queue.Types.{FileAttachment}
use express_send.Token.Auth.{
  sent_with, History, Answer, delivered, unauthorized_, failed, Machine, Botx, authenticate,
  refresh_token, CacheKind, returned_cache,
}
use express_send.Worker.{SendParams}

pub record BotSender : Type 0 where
  pub cfg : Config
  pub token : Text
  -- The cache that `authenticate` returned, `none` for nil.
  pub cache : Option CacheKind

-- What is outside: the answer of the API to a request by its history, and files.
pub record Api : Type 0 where
  pub botx : Botx
  pub send : History → Text → SendParams → Answer
  pub attachment : FilePayload → FileAttachment

pub data SenderError : Type 0 where
  auth_failed auth_rejected auth_refresh : Text → SenderError
  api_401 : SenderError
  api_failed : Text → SenderError

abbrev pub no_opts : OptsPayload
no_opts = record { silent = false; stealth = false; force_dnd = false; no_notify = false }

abbrev pub opts_or_none : Option OptsPayload → OptsPayload
opts_or_none (some o) = o
opts_or_none none = no_opts

-- What a `Send` ends with: the result, the token of the client and the machine.
pub record Sent : Type 0 where
  pub result : Result SenderError Text
  pub token : Text
  pub machine : Machine

module _ (api : Api) where
  -- `buildSendRequest`, up to the parameters of botapi.
  unfoldable pub params_of : SendPayload → SendParams
  params_of p =
      let o = opts_or_none p.opts in
      record {
        chat_id = p.chat_id;
        message = p.message;
        status = p.status;
        file = elim p.file [ some f ↦ some (api.attachment f) | none ↦ none ];
        metadata = p.metadata;
        mentions = p.mentions;
        silent = o.silent;
        stealth = o.stealth;
        force_dnd = o.force_dnd;
        no_notify = o.no_notify;
      }

  unfoldable pub new_bot_sender : Config → Bool → Machine → Result SenderError BotSender × Machine
  unfolding authenticate returned_cache
  new_bot_sender c fail_fast m =
      let cache = returned_cache api.botx c in
      let name = if eqb c.bot_name [] then c.host else c.bot_name in
      let (answer, m') = authenticate api.botx c m in
      elim answer [
        | ok tok ↦ (ok (record { cfg = c; token = tok; cache = cache }), m')
        | err why ↦ (
          if fail_fast
              then err (auth_failed name)
              else ok (record { cfg = c; token = []; cache = cache }),
          m',
        )
      ]

  -- `SendWithSyncID` with the token of the client.
  unfoldable pub send_with_sync_id : SendParams → Text → Machine → Sent
  send_with_sync_id sr token m =
      let m' = record m { history = sent_with token ∷ m.history } in
      elim (api.send m.history token sr) [
        | delivered id ↦ record { result = ok id; token = token; machine = m' }
        | unauthorized_ ↦ record { result = err api_401; token = token; machine = m' }
        | failed why ↦ record { result = err (api_failed why); token = token; machine = m' }
      ]

  -- After a 401: a static token is final, any other is asked for again, past the cache.
  unfoldable pub renew : Config → Option CacheKind → SendParams → Text → Machine → Sent
  unfolding eqb refresh_token send_with_sync_id
  renew c cache sr token m =
      let (answer, m') = refresh_token api.botx c cache m in
      let renewed : Sent = elim answer [
        | err why ↦ record { result = err (auth_refresh why); token = token; machine = m' }
        | ok fresh ↦ send_with_sync_id sr fresh m'
      ] in
      if not (eqb c.bot_token [])
      then record { result = err (auth_rejected c.bot_name); token = token; machine = m }
      else renewed

  unfoldable pub send_authenticated : Config → Option CacheKind → SendParams → Text → Machine → Sent
  unfolding send_with_sync_id renew
  send_authenticated c cache sr token m =
      let first = send_with_sync_id sr token m in
      let second = renew c cache sr token first.machine in
      elim (api.send m.history token sr) [
        | delivered id ↦ first
        | unauthorized_ ↦ second
        | failed why ↦ first
      ]

  -- `botSender.Send`.
  unfoldable pub send : BotSender → SendPayload → Machine → Sent
  unfolding eqb refresh_token send_authenticated params_of
  send bs p m =
      let with_token = send_authenticated bs.cfg bs.cache (params_of p) bs.token m in
      let (answer, m') = refresh_token api.botx bs.cfg bs.cache m in
      let lazy : Sent = elim answer [
        | err why ↦ record { result = err (auth_failed why); token = bs.token; machine = m' }
        | ok tok ↦ send_authenticated bs.cfg bs.cache (params_of p) tok m'
      ] in
      if eqb bs.token [] then lazy else with_token
