-- ===== src/Queue/Types.antt =====
-- The messages of the queue: internal/queue/queue.go. A time is a number of seconds.
use express_send.Common.{ℕ, Bool, Option, List}
use express_send.Text.{Text}
use express_send.Config.Types.{BotEntry, ChatEntry}

pub record Routing : Type 0 where
  pub host : Text
  pub bot_id : Text
  pub chat_id : Text
  pub bot_name : Text
  pub chat_alias : Text
  pub catalog_revision : Text

pub record FileAttachment : Type 0 where
  pub file_name : Text
  pub content : Text

pub record DeliveryOpts : Type 0 where
  pub silent : Bool
  pub stealth : Bool
  pub force_dnd : Bool
  pub no_notify : Bool
  pub no_parse : Bool

pub record WorkPayload : Type 0 where
  pub message : Text
  pub status : Text
  pub file : Option FileAttachment
  pub opts : DeliveryOpts
  pub metadata : Text
  pub mentions : Text

pub record WorkMessage : Type 0 where
  pub request_id : Text
  pub routing : Routing
  pub payload : WorkPayload
  pub reply_to : Text
  pub enqueued_at : ℕ

pub record WorkResult : Type 0 where
  pub request_id : Text
  pub status : Text
  pub sync_id : Text
  pub error : Text
  pub sent_at : ℕ

pub record CatalogSnapshot : Type 0 where
  pub revision : Text
  pub generated_at : ℕ
  pub bots : List BotEntry
  pub chats : List ChatEntry
