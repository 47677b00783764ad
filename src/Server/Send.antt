-- ===== src/Server/Send.antt =====
-- The send endpoint: internal/server/handler_send.go. Reading the body is the work of
-- encoding/json and of mime/multipart: what they give is a parameter.
pub mod Laws
pub mod Hiding
use express_send.Common.{
  ℕ, zero, suc, ◌+◌, ◌*◌, ◌/◌, ◌==◌, ltb, Bool, true, false, ◌&&◌, ◌||◌, not, if◌then◌else◌, Option,
  none, some, List, [], ◌∷◌, ◌++◌, length, Result, ok, err, ◌>>=◌,
}
use express_send.Text.{Text, codes, eqb, contains, lookup, is_some}
use express_send.Mentions.Parse.{Outside, parse_message}
use express_send.Server.Types.{
  Context, ChatResult, SendPayload, FilePayload, OptsPayload, SendFailure, send_not_allowed,
  send_unresolved, send_failed, Failure, chat_failed, bot_refused, not_sent, SendResult, Message,
  text, not_allowed, unsupported_media_type, mentions_not_array, chat_required, content_required,
  invalid_status, routing, file_too_large, Response, refused, is_uuid,
}
use express_send.Server.Form.{Form, JsonReader, parse_multipart}
use express_send.Server.Bots.{resolve_request_bot}
use express_send.Server.MultiSend.{
  trim_space, parse_chat_ids, fanout, Pipeline, Sent, hand_over, write_multi_send,
}
use express_send.Server.Auth.{is_empty, scoped, authorize_targets, sanitize_errors}

-- The body of a request by its media type: what decoding JSON gives, or a form.
pub data Body : Type 0 where
  json_body : Result Text SendPayload → Body
  form_body : Result Text Form → Body
  other_body : Body

-- The body, and whether ?no_parse=true.
pub record SendRequest : Type 0 where
  pub body : Body
  pub no_parse : Bool

-- The payload of a body, or the refusal.
unfoldable pub read_body : JsonReader → Body → Result Response SendPayload
unfolding parse_multipart
read_body json (json_body (ok p)) = ok p
read_body json (json_body (err why)) = err (refused 400 (text (codes "invalid JSON: " ++ why)))
read_body json (form_body form) = elim (parse_multipart json form) [
  | ok p ↦ ok p
  | err why ↦ err (refused 400 (text why))
]
read_body json other_body = err (refused 415 unsupported_media_type)

-- The configuration of the server that the endpoint reads.
pub record SendConfig : Type 0 where
  pub async_mode : Bool
  pub default_chat_alias : Text
  pub default_routing_mode : Text
  pub max_file_size : ℕ

-- The mentions field, with "null" for an absent one.
unfoldable pub check_mentions : SendPayload → Result Response SendPayload
check_mentions p =
    if eqb p.mentions (codes "null") then ok (record p { mentions = [] }) else elim p.mentions [
      | [] ↦ ok p
      | c ∷ s ↦ if c == b'[' then ok p else err (refused 400 mentions_not_array)
    ]

unfoldable pub check_chat : Text → SendPayload → Result Response SendPayload
check_chat default_chat_alias p =
    if not (eqb p.chat_id [])
    then ok p
    else if not (eqb default_chat_alias [])
    then ok (record p { chat_id = default_chat_alias })
    else err (refused 400 chat_required)

unfoldable pub check_content : SendPayload → Result Response SendPayload
check_content p =
    if eqb p.message [] && not (is_some p.file) then err (refused 400 content_required) else ok p

unfoldable pub check_status : SendPayload → Result Response SendPayload
check_status p =
    if eqb p.status []
    then ok (record p { status = codes "ok" })
    else if eqb p.status (codes "ok") || eqb p.status (codes "error")
    then ok p
    else err (refused 400 (invalid_status p.status))

-- `handleSend` up to the choice of the mode.
unfoldable pub check_payload : SendConfig → SendPayload → Result Response SendPayload
unfolding check_mentions check_chat check_content check_status
check_payload cfg p = check_mentions p >>= λ p1.
    check_chat cfg.default_chat_alias p1 >>= λ p2. check_content p2 >>= λ p3. check_status p3

-- What is missing for the routing mode, for one target chat. The message of an unknown mode
-- stops at its name, unquoted.
unfoldable pub validate_async_routing : Text → Text → Text → Text → Option Text
unfolding is_uuid
validate_async_routing rm bot_id bot_alias chat =
    let no_bot = eqb bot_id [] && eqb bot_alias [] && is_uuid chat in
    if eqb rm (codes "catalog")
    then if no_bot
      then some (
          codes
            "bot_id or bot alias is required when chat_id is a UUID in catalog mode; use a chat alias with a catalog-bound bot, or provide bot_id/bot")
      else none
    else if eqb rm (codes "mixed")
    then if no_bot
      then some (
          codes
            "bot_id or bot alias is required when chat_id is a UUID in mixed mode; provide bot_id for direct routing or bot alias for catalog resolution")
      else none
    else if eqb rm (codes "direct")
    then if eqb bot_id []
      then some (codes "bot_id is required for async direct mode")
      else if not (is_uuid bot_id)
      then some (codes "bot_id must be a valid UUID for direct routing mode")
      else if not (is_uuid chat)
      then some (
          codes
            "chat_id must be a valid UUID for direct routing mode; use catalog or mixed mode for alias resolution")
      else none
    else some (codes "invalid routing_mode " ++ rm)

-- The loop over the targets.
unfoldable pub validate_targets : Text → SendPayload → List Text → Option Text
unfolding validate_async_routing
validate_targets rm p [] = none
validate_targets rm p (chat ∷ targets) = elim (validate_async_routing rm p.bot_id p.bot chat) [
  | some why ↦ some why
  | none ↦ validate_targets rm p targets
]

-- The routing mode: of the request, of the configuration, or "mixed".
abbrev pub routing_mode_of : SendConfig → SendPayload → Text
routing_mode_of cfg p =
    if not (eqb p.routing_mode [])
    then p.routing_mode
    else if not (eqb cfg.default_routing_mode [])
    then cfg.default_routing_mode
    else codes "mixed"

abbrev pub max_size_of : SendConfig → ℕ
max_size_of cfg = if cfg.max_file_size == 0 then 1048576 else cfg.max_file_size

-- The size of the file of a queued payload, from its base64 text, against the limit; a limit is not
-- negative here.
unfoldable pub oversized : SendConfig → SendPayload → Bool
oversized cfg p = elim p.file [
  | none ↦ false
  | some file ↦ ltb (max_size_of cfg) (length file.content * 3 / 4)
]

-- Is the failure one of authorization?
unfoldable pub is_denial : Context → Failure → Bool
is_denial ctx (not_sent send_not_allowed) = true
is_denial ctx (not_sent (send_unresolved _)) = scoped ctx
is_denial ctx _ = false

module _ (to_lower : Text → Text) (pipe : Pipeline) (ctx : Context) (cfg : SendConfig) where
  -- The closure of the asynchronous branch; the second part of its state is `denied`.
  unfoldable pub deliver_async :
      SendPayload → Text → Sent × ℕ → Result Failure SendResult × (Sent × ℕ)
  unfolding is_denial
  deliver_async payload chat (sent, denied) =
      let p = record payload { chat_id = chat } in
      elim (pipe.send sent p) [
        | err e ↦ (
          err (not_sent e),
          (sent ++ p ∷ [], if is_denial ctx (not_sent e) then suc denied else denied),
        )
        | ok request_id ↦ (
          ok (record { chat = chat; sync_id = []; request_id = request_id; queued = true }),
          (sent ++ p ∷ [], denied),
        )
      ]

  -- The fan-out of the asynchronous branch and its answer.
  unfoldable pub enqueue : SendPayload → List Text → Sent → Response × Sent
  unfolding deliver_async fanout
  enqueue p targets sent =
      let out = fanout (deliver_async p) targets (sent, 0) in
      let response =
        if is_empty out.results && out.state.1 == length targets
        then refused 403 not_allowed
        else write_multi_send out.results (sanitize_errors ctx out.errs) 202 in
      (response, out.state.0)

  -- The asynchronous branch of `handleSend`.
  unfoldable pub send_async : SendPayload → Bool → Sent → Response × Sent
  unfolding enqueue validate_targets oversized authorize_targets
  send_async payload no_parse sent =
      let p = record payload { no_parse = no_parse } in
      let targets = parse_chat_ids p.chat_id in
      let admitted : Response × Sent = elim (validate_targets (routing_mode_of cfg p) p targets) [
        | some why ↦ (refused 400 (routing why), sent)
        | none ↦
            if oversized cfg p
            then (refused 413 (file_too_large (max_size_of cfg)), sent)
            else enqueue p targets sent
      ] in
      let authorized : Response × Sent =
        elim (authorize_targets to_lower pipe.chats ctx targets false) [
          | some response ↦ (response, sent)
          | none ↦ admitted
        ] in
      if is_empty targets then (refused 400 chat_required, sent) else authorized

  -- The resolver of mentions: that of the bot where there is one, else the common one.
  abbrev pub resolver_of : Outside → List (Text × Outside) → Text → Outside
  resolver_of common of_bots bot = elim (lookup bot of_bots) [
    | none ↦ common
    | some own ↦ if not (eqb bot []) then own else common
  ]

  -- The closure of the synchronous branch.
  unfoldable pub deliver_sync :
      Outside
      → List (Text × Outside)
      → SendPayload
      → Bool
      → Text
      → Sent
      → Result Failure SendResult × Sent
  unfolding parse_message hand_over resolve_request_bot
  deliver_sync common of_bots payload no_parse chat sent = elim (pipe.chats chat) [
    | err why ↦ (err (chat_failed why), sent)
    | ok found ↦ elim (resolve_request_bot pipe.bots ctx payload.bot found.bot) [
      | err why ↦ (err (bot_refused why), sent)
      | ok bot ↦
          let parsed =
            parse_message (resolver_of common of_bots bot) payload.message payload.mentions
              (not no_parse) in
          hand_over pipe chat
            (record payload {
              chat_id = found.chat_id;
              bot = bot;
              message = parsed.message;
              mentions = parsed.mentions;
            })
            sent
    ]
  ]

  -- The synchronous branch of `handleSend`.
  unfoldable pub send_sync :
      Outside → List (Text × Outside) → SendPayload → Bool → Sent → Response × Sent
  unfolding deliver_sync fanout authorize_targets
  send_sync common of_bots payload no_parse sent =
      let targets = parse_chat_ids payload.chat_id in
      let out = fanout (deliver_sync common of_bots payload no_parse) targets sent in
      let authorized : Response × Sent =
        elim (authorize_targets to_lower pipe.chats ctx targets true) [
          | some response ↦ (response, sent)
          | none ↦ (write_multi_send out.results (sanitize_errors ctx out.errs) 200, out.state)
        ] in
      if is_empty targets then (refused 400 chat_required, sent) else authorized

  -- `handleSend`: the body, the checks, and the mode.
  unfoldable pub handle_send :
      JsonReader → Outside → List (Text × Outside) → SendRequest → Sent → Response × Sent
  unfolding read_body check_payload send_async send_sync
  handle_send json common of_bots r sent = elim (read_body json r.body >>= check_payload cfg) [
    | err response ↦ (response, sent)
    | ok p ↦
        if cfg.async_mode
        then send_async p r.no_parse sent
        else send_sync common of_bots p r.no_parse sent
  ]
