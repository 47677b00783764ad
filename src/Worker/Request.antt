-- ===== src/Worker/Request.antt =====
-- The request for the BotX API: `BuildSendRequest`, internal/botapi/client.go. A pointer is an
-- `Option`; `opts` of a notification and `send` point to a Boolean.
pub mod Laws
use express_send.Common.{Bool, true, false, ◌&&◌, ◌||◌, not, if◌then◌else◌, Option, none, some, []}
use express_send.Text.{Text, eqb, is_some}
use express_send.Queue.Types.{FileAttachment}
use express_send.Worker.{SendParams}

pub record SendNotification : Type 0 where
  pub status : Text
  pub body : Text
  pub metadata : Text
  pub mentions : Text
  -- `silent_response`.
  pub opts : Option Bool

-- `notification_opts`.
pub record PushOpts : Type 0 where
  pub send : Option Bool
  pub force_dnd : Bool

pub record SendOpts : Type 0 where
  pub stealth_mode : Bool
  pub notification_opts : Option PushOpts

pub record SendRequest : Type 0 where
  pub group_chat_id : Text
  pub notification : Option SendNotification
  pub file : Option FileAttachment
  pub opts : Option SendOpts

abbrev pub silent_opts : Bool → Option Bool
silent_opts silent = if silent then some true else none

unfoldable pub message_part : SendParams → Option SendNotification
unfolding eqb
message_part p =
    if not (eqb p.message [])
    then some (record {
      status = p.status;
      body = p.message;
      metadata = p.metadata;
      mentions = p.mentions;
      opts = silent_opts p.silent;
    })
    else none

-- The notification of a file without a text.
unfoldable pub carrier : SendParams → Option SendNotification → Option SendNotification
unfolding eqb
carrier p notification =
    if not (is_some notification) && (not (eqb p.metadata []) || not (eqb p.mentions []))
    then some (record {
      status = p.status;
      body = [];
      metadata = p.metadata;
      mentions = p.mentions;
      opts = silent_opts p.silent;
    })
    else notification

unfoldable pub push_opts : SendParams → Option PushOpts
push_opts p =
    if p.force_dnd || p.no_notify
    then some (record { send = if p.no_notify then some false else none; force_dnd = p.force_dnd })
    else none

unfoldable pub delivery_part : SendParams → Option SendOpts
unfolding push_opts
delivery_part p =
    if p.stealth || p.force_dnd || p.no_notify
    then some (record { stealth_mode = p.stealth; notification_opts = push_opts p })
    else none

unfoldable pub build_request : SendParams → SendRequest
unfolding message_part carrier delivery_part
build_request p = record {
  group_chat_id = p.chat_id;
  notification = carrier p (message_part p);
  file = p.file;
  opts = delivery_part p;
}
