-- ===== src/Server/Types.antt =====
-- Requests, contexts, payloads and responses: the types of internal/server/auth.go,
-- multisend.go, handler_send.go and server.go that the handlers share.
pub mod Uuid
use express_send.Common.{
  ℕ, zero, suc, Bool, true, false, if◌then◌else◌, Option, none, some, List, [], ◌∷◌, ◌==◌,
}
use express_send.Text.{Text}
use express_send.Text.Query.{is_hex}

-- The part of a request context that the handlers read; "" and [] stand for an unset value.
pub record Context : Type 0 where
  pub key_name : Text
  pub auth_bot : Text
  pub key_scope : List Text

pub record OptsPayload : Type 0 where
  pub silent : Bool
  pub stealth : Bool
  pub force_dnd : Bool
  pub no_notify : Bool

pub record FilePayload : Type 0 where
  pub name : Text
  pub content : Text

pub record SendPayload : Type 0 where
  pub bot : Text
  pub chat_id : Text
  pub message : Text
  pub file : Option FilePayload
  pub status : Text
  pub opts : Option OptsPayload
  pub metadata : Text
  pub mentions : Text
  pub routing_mode : Text
  pub bot_id : Text
  pub no_parse : Bool

-- Why a bot cannot serve a request, with the names that the message quotes.
pub data BotRefusal : Type 0 where
  no_named_bot : Text → BotRefusal
  other_bot : Text → Text → BotRefusal
  not_authenticated_bot : Text → Text → BotRefusal
  bot_required : BotRefusal
  unknown_bot : Text → BotRefusal

-- An error of the send function; the first two are `ErrChatNotAllowed` and `ErrChatUnresolved`.
pub data SendFailure : Type 0 where
  send_not_allowed : SendFailure
  send_unresolved : Text → SendFailure
  send_failed : Text → SendFailure

-- The error of one target of a fan-out.
pub data Failure : Type 0 where
  chat_not_allowed : Failure
  resolving_chat : Text → Failure
  chat_failed : Text → Failure
  bot_refused : BotRefusal → Failure
  not_sent : SendFailure → Failure

-- A delivery: with `sync_id`, or with `request_id` and `queued`.
pub record SendResult : Type 0 where
  pub chat : Text
  pub sync_id : Text
  pub request_id : Text
  pub queued : Bool

pub record SendError : Type 0 where
  pub chat : Text
  pub error : Failure

-- What a chat resolver answers for a chat.
pub record ChatResult : Type 0 where
  pub chat_id : Text
  pub bot : Text

-- The text of a request-level error.
pub data Message : Type 0 where
  text : Text → Message
  unauthorized forbidden not_allowed : Message
  unsupported_media_type : Message
  mentions_not_array chat_required chat_empty content_required : Message
  invalid_status : Text → Message
  routing : Text → Message
  file_too_large : ℕ → Message
  invalid_json template_error : Text → Message
  no_alerts not_configured invalid_token : Message
  outside_scope : Text → Message
  bot_conflict : Text → Text → Text → Text → Message

pub data Response : Type 0 where
  -- `writeError`.
  refused : ℕ → Message → Response
  -- `MultiSendResponse`.
  multi : ℕ → Bool → List SendResult → List SendError → Response
  -- `writeGitlabIgnored`.
  ignored : Text → Text → Response

-- `isUUID`: runs of 8, 4, 4, 4 and 12 hexadecimal digits, joined by dashes.
unfoldable pub hex_run : ℕ → Text → Option Text
unfolding is_hex
hex_run zero s = some s
hex_run (suc n) [] = none
hex_run (suc n) (c ∷ s) = let rest = hex_run n s in if is_hex c then rest else none

unfoldable pub uuid_groups : List ℕ → Text → Bool
unfolding hex_run
uuid_groups [] s = false
uuid_groups (n ∷ []) s = elim (hex_run n s) [ some [] ↦ true | _ ↦ false ]
uuid_groups (n ∷ m ∷ ns) s = elim (hex_run n s) [
  | some (c ∷ rest) ↦ if c == b'-' then uuid_groups (m ∷ ns) rest else false
  | _ ↦ false
]

unfoldable pub is_uuid : Text → Bool
unfolding uuid_groups
is_uuid s = uuid_groups (8 ∷ 4 ∷ 4 ∷ 4 ∷ 12 ∷ []) s
