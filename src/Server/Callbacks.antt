-- ===== src/Server/Callbacks.antt =====
-- The callbacks of BotX: internal/server/callback.go, callback_router.go and handler_callback.go.
-- A handler is known by the type `Handler`; what it does is not modelled, only which handlers are
-- called, in which order, and which of them in the background.
pub mod Laws
use express_send.Common.{
  ℕ, suc, ◌+◌, ◌==◌, Bool, true, false, ◌&&◌, ◌||◌, not, if◌then◌else◌, Option, none, some, List,
  [], ◌∷◌, ◌++◌, length, Result, ok, err,
}
use express_send.Text.{Text, codes, eqb, contains, lookup, cut_prefix, has_prefix}

-- `systemEventMap`.
abbrev system_event_map : List (Text × Text)
system_event_map =
    (codes "system:chat_created", codes "chat_created")
    ∷ (codes "system:added_to_chat", codes "added_to_chat")
    ∷ (codes "system:user_joined_to_chat", codes "user_joined_to_chat")
    ∷ (codes "system:deleted_from_chat", codes "deleted_from_chat")
    ∷ (codes "system:left_from_chat", codes "left_from_chat")
    ∷ (codes "system:chat_deleted_by_user", codes "chat_deleted_by_user")
    ∷ (codes "system:cts_login", codes "cts_login")
    ∷ (codes "system:cts_logout", codes "cts_logout")
    ∷ (codes "system:event_edit", codes "event_edit")
    ∷ (codes "system:smartapp_event", codes "smartapp_event")
    ∷ (codes "system:internal_bot_notification", codes "internal_bot_notification")
    ∷ (codes "system:conference_created", codes "conference_created")
    ∷ (codes "system:conference_deleted", codes "conference_deleted")
    ∷ (codes "system:call_started", codes "call_started")
    ∷ (codes "system:call_ended", codes "call_ended")
    ∷ []

unfoldable pub parse_event_type : Text → Text
unfolding lookup cut_prefix
parse_event_type command_body = elim (cut_prefix command_body (codes "system:")) [
  | none ↦ codes "message"
  | some rest ↦ elim (lookup command_body system_event_map) [ some ev ↦ ev | none ↦ rest ]
]

pub record RouterRule (Handler : Type 0) : Type 0 where
  pub events : List Text
  pub handler : Handler
  pub async : Bool

pub record MatchedRule (Handler : Type 0) : Type 0 where
  pub handler : Handler
  pub async : Bool

pub data RouterError : Type 0 where
  length_mismatch : RouterError
  no_handler : ℕ → RouterError
  no_events : ℕ → RouterError

-- The rule of a configuration: its events, and the type, the command, the URL and the timeout of
-- its handler.
pub record CallbackRule : Type 0 where
  pub handler_type : Text
  pub command : Text
  pub url : Text
  pub timeout : Text

pub data HandlerError : Type 0 where
  invalid_timeout : ℕ → Text → HandlerError
  unknown_handler_type : ℕ → Text → HandlerError

-- The inner loop of `Route`.
unfoldable pub listens : Text → List Text → Bool
listens event [] = false
listens event (e ∷ events) = (eqb e event || eqb e (codes "*")) || listens event events

-- What building a handler takes: `time.ParseDuration`, the custom handlers by type, and the
-- constructors of the two built-in ones.
pub record HandlerKinds (Handler : Type 0) : Type 0 where
  pub parse_duration : Text → Option ℕ
  pub custom : List (Text × Handler)
  pub exec : Text → ℕ → Handler
  pub webhook : Text → ℕ → Handler

module _ {Handler : Type 0} (kinds : HandlerKinds Handler) where
  -- The timeout of a rule; 0 without one.
  unfoldable pub rule_timeout : ℕ → CallbackRule → Result HandlerError ℕ
  rule_timeout i rule =
      let parsed : Result HandlerError ℕ = elim (kinds.parse_duration rule.timeout) [
        | some d ↦ ok d
        | none ↦ err (invalid_timeout (i + 1) rule.timeout)
      ] in
      if eqb rule.timeout [] then ok 0 else parsed

  unfoldable pub build_handler : ℕ → CallbackRule → Result HandlerError Handler
  unfolding rule_timeout lookup
  build_handler i rule = elim (rule_timeout i rule) [
    | err why ↦ err why
    | ok timeout ↦ elim (lookup rule.handler_type kinds.custom) [
      | some h ↦ ok h
      | none ↦
          if eqb rule.handler_type (codes "exec")
          then ok (kinds.exec rule.command timeout)
          else if eqb rule.handler_type (codes "webhook")
          then ok (kinds.webhook rule.url timeout)
          else err (unknown_handler_type (i + 1) rule.handler_type)
    ]
  ]

  -- `buildHandlers` from rule `i` on; the map from indices is the list of its values.
  unfoldable pub build_handlers : ℕ → List CallbackRule → Result HandlerError (List Handler)
  unfolding build_handler
  build_handlers i [] = ok []
  build_handlers i (rule ∷ rules) = elim (build_handler i rule) [
    | err why ↦ err why
    | ok h ↦ elim (build_handlers (i + 1) rules) [ err why ↦ err why | ok hs ↦ ok (h ∷ hs) ]
  ]

module _ {Handler : Type 0} where
  -- The loop of `NewCallbackRouter` from rule `i` on.
  unfoldable pub build_rules :
      (ℕ → Option Handler)
      → ℕ
      → List (List Text)
      → List Bool
      → Result RouterError (List (RouterRule Handler))
  build_rules handlers i [] flags = ok []
  build_rules handlers i (evts ∷ events) [] = err length_mismatch
  build_rules handlers i (evts ∷ events) (flag ∷ flags) =
      let rest = build_rules handlers (i + 1) events flags in
      elim (handlers i) [
        | none ↦ err (no_handler i)
        | some h ↦ elim evts as (λ x. Result RouterError (List (RouterRule Handler))) [
          | [] ↦ err (no_events i)
          | e ∷ es ↦ elim rest [
            | err why ↦ err why
            | ok rules ↦ ok (record { events = e ∷ es; handler = h; async = flag } ∷ rules)
          ]
        ]
      ]

  unfoldable pub new_callback_router :
      List (List Text)
      → List Bool
      → (ℕ → Option Handler)
      → Result RouterError (List (RouterRule Handler))
  unfolding build_rules
  new_callback_router events async_flags handlers =
      if not (length events == length async_flags)
      then err length_mismatch
      else build_rules handlers 0 events async_flags

  unfoldable pub route : List (RouterRule Handler) → Text → List (MatchedRule Handler)
  unfolding listens
  route [] event = []
  route (rule ∷ rules) event =
      let rest = route rules event in
      if listens event rule.events
      then record { handler = rule.handler; async = rule.async } ∷ rest
      else rest

-- The calls that an event makes: each handler with the event and the body, in the background or
-- before the answer.
pub record Call (Handler : Type 0) : Type 0 where
  pub handler : Handler
  pub event : Text
  pub body : Text
  pub background : Bool

pub record CallbackPayload : Type 0 where
  pub sync_id : Text
  pub bot_id : Text
  pub group_chat_id : Text
  pub command_body : Text

pub record NotificationPayload : Type 0 where
  pub sync_id : Text
  pub status : Text

-- The answer of a callback endpoint: its code, and the error where there is one.
pub record Answer : Type 0 where
  pub code : ℕ
  pub error : Option Text

module _ {Handler : Type 0} (rules : List (RouterRule Handler)) where
  unfoldable pub calls_for : Text → Text → List (MatchedRule Handler) → List (Call Handler)
  calls_for event body [] = []
  calls_for event body (m ∷ matched) =
      record { handler = m.handler; event = event; body = body; background = m.async }
      ∷ calls_for event body matched

  -- `body` is what reading the request gives, `unmarshal` is `json.Unmarshal`, `jwt_aud` the
  -- audience of the verified token, or "".
  unfoldable pub handle_command :
      (Text → Option CallbackPayload) → Text → Option Text → Answer × List (Call Handler)
  unfolding parse_event_type route calls_for
  handle_command unmarshal jwt_aud none =
      (record { code = 400; error = some (codes "failed to read request body") }, [])
  handle_command unmarshal jwt_aud (some body) = elim (unmarshal body) [
    | none ↦ (record { code = 400; error = some (codes "invalid JSON payload") }, [])
    | some payload ↦
        let event = parse_event_type payload.command_body in
        if eqb payload.bot_id [] || eqb payload.sync_id []
        then (
          record { code = 400; error = some (codes "missing required fields: bot_id and sync_id") },
          [],
        )
        else if eqb payload.group_chat_id []
        then (
          record { code = 400; error = some (codes "missing required field: from.group_chat_id") },
          [],
        )
        else if not (eqb jwt_aud []) && not (eqb jwt_aud payload.bot_id)
        then (
          record { code = 403; error = some (codes "bot_id does not match authenticated token") },
          [],
        )
        else (record { code = 202; error = none }, calls_for event body (route rules event))
  ]

  unfoldable pub handle_notification_callback :
      (Text → Option NotificationPayload) → Option Text → Answer × List (Call Handler)
  unfolding route calls_for
  handle_notification_callback unmarshal none =
      (record { code = 400; error = some (codes "failed to read request body") }, [])
  handle_notification_callback unmarshal (some body) = elim (unmarshal body) [
    | none ↦ (record { code = 400; error = some (codes "invalid JSON payload") }, [])
    | some payload ↦
        let event = codes "notification_callback" in
        if eqb payload.sync_id [] || eqb payload.status []
        then (
          record { code = 400; error = some (codes "missing required fields: sync_id and status") },
          [],
        )
        else (record { code = 200; error = none }, calls_for event body (route rules event))
  ]
