-- ===== src/Server/MultiSend.antt =====
-- The fan-out to several chats: internal/server/multisend.go.
pub mod Laws
use mathlib.Core.List.{reverse}
use express_send.Common.{
  ℕ, zero, suc, ◌==◌, Bool, true, false, not, if◌then◌else◌, Option, none, some, List, [], ◌∷◌,
  ◌++◌, length, map, Result, ok, err,
}
use express_send.Text.{Text, eqb, contains, cut_prefix, split}
use express_send.Server.Types.{
  Context, SendPayload, SendFailure, Failure, resolving_chat, bot_refused, not_sent, SendResult,
  SendError, ChatResult, Response, multi,
}
use express_send.Server.Bots.{BotConfig, resolve_request_bot}

-- The white space of Unicode, in UTF-8.
abbrev spaces : List Text
spaces =
    (9 ∷ [])
    ∷ (10 ∷ [])
    ∷ (11 ∷ [])
    ∷ (12 ∷ [])
    ∷ (13 ∷ [])
    ∷ (32 ∷ [])
    ∷ (0xC2 ∷ 0x85 ∷ [])
    ∷ (0xC2 ∷ 0xA0 ∷ [])
    ∷ (0xE1 ∷ 0x9A ∷ 0x80 ∷ [])
    ∷ (0xE2 ∷ 0x80 ∷ 0x80 ∷ [])
    ∷ (0xE2 ∷ 0x80 ∷ 0x81 ∷ [])
    ∷ (0xE2 ∷ 0x80 ∷ 0x82 ∷ [])
    ∷ (0xE2 ∷ 0x80 ∷ 0x83 ∷ [])
    ∷ (0xE2 ∷ 0x80 ∷ 0x84 ∷ [])
    ∷ (0xE2 ∷ 0x80 ∷ 0x85 ∷ [])
    ∷ (0xE2 ∷ 0x80 ∷ 0x86 ∷ [])
    ∷ (0xE2 ∷ 0x80 ∷ 0x87 ∷ [])
    ∷ (0xE2 ∷ 0x80 ∷ 0x88 ∷ [])
    ∷ (0xE2 ∷ 0x80 ∷ 0x89 ∷ [])
    ∷ (0xE2 ∷ 0x80 ∷ 0x8A ∷ [])
    ∷ (0xE2 ∷ 0x80 ∷ 0xA8 ∷ [])
    ∷ (0xE2 ∷ 0x80 ∷ 0xA9 ∷ [])
    ∷ (0xE2 ∷ 0x80 ∷ 0xAF ∷ [])
    ∷ (0xE2 ∷ 0x81 ∷ 0x9F ∷ [])
    ∷ (0xE3 ∷ 0x80 ∷ 0x80 ∷ [])
    ∷ []

-- What follows a prefix that is one of the texts of a list.
unfoldable pub cut_one : List Text → Text → Option Text
unfolding cut_prefix
cut_one [] s = none
cut_one (p ∷ ps) s = elim (cut_prefix s p) [ some rest ↦ some rest | none ↦ cut_one ps s ]

-- Every round takes a byte at least, so the length of the text is enough fuel.
unfoldable pub strip : ℕ → List Text → Text → Text
unfolding cut_one
strip zero ps s = s
strip (suc fuel) ps s = elim (cut_one ps s) [ none ↦ s | some rest ↦ strip fuel ps rest ]

-- `strings.TrimSpace`.
unfoldable pub trim_space : Text → Text
unfolding strip
trim_space s =
    let left = strip (length s) spaces s in
    reverse (strip (length left) (map reverse spaces) (reverse left))

-- The loop of `parseChatIDs`, with the chats seen so far.
unfoldable pub collect_chats : List Text → List Text → List Text
collect_chats seen [] = []
collect_chats seen (p ∷ parts) =
    let chat = trim_space p in
    let dropped = collect_chats seen parts in
    let kept = chat ∷ collect_chats (chat ∷ seen) parts in
    if eqb chat [] then dropped else if contains chat seen then dropped else kept

unfoldable pub parse_chat_ids : Text → List Text
unfolding collect_chats trim_space split
parse_chat_ids raw = collect_chats [] (split raw b',')

-- The lists that a fan-out returns, and what it has changed outside.
pub record Fanout (S : Type 0) : Type 0 where
  pub results : List SendResult
  pub errs : List SendError
  pub state : S

-- `deliver` may change the state of the outside world `S`.
module _ {S : Type 0} (deliver : Text → S → Result Failure SendResult × S) where
  unfoldable pub fanout : List Text → S → Fanout S
  fanout [] s = record { results = []; errs = []; state = s }
  fanout (target ∷ targets) s =
      let (answer, s') = deliver target s in
      let rest = fanout targets s' in
      elim answer [
        | ok res ↦ record { results = res ∷ rest.results; errs = rest.errs; state = rest.state }
        | err e ↦ record {
          results = rest.results;
          errs = record { chat = target; error = e } ∷ rest.errs;
          state = rest.state;
        }
      ]

-- What the server is given: the bots, the chat resolver and the send function. The state of the
-- outside world is the list of the payloads handed to the send function so far, on which its
-- answer may depend.
pub record Pipeline : Type 0 where
  pub bots : BotConfig
  pub chats : Text → Result Text ChatResult
  pub send : List SendPayload → SendPayload → Result SendFailure Text

abbrev pub Sent : Type 0
Sent = List SendPayload

abbrev pub plain_payload : Text → Text → Text → Text → SendPayload
plain_payload bot chat_id message status = record {
  bot = bot;
  chat_id = chat_id;
  message = message;
  file = none;
  status = status;
  opts = none;
  metadata = [];
  mentions = [];
  routing_mode = [];
  bot_id = [];
  no_parse = false;
}

-- The answer for a target whose payload is handed over.
unfoldable pub hand_over : Pipeline → Text → SendPayload → Sent → Result Failure SendResult × Sent
hand_over pipe chat p sent =
    let answer : Result Failure SendResult = elim (pipe.send sent p) [
      | err e ↦ err (not_sent e)
      | ok sync_id ↦ ok (record { chat = chat; sync_id = sync_id; request_id = []; queued = false })
    ] in
    (answer, sent ++ p ∷ [])

-- The closure of `fanoutSend`.
unfoldable pub deliver_plain :
    Pipeline → Context → Text → Text → Text → Text → Sent → Result Failure SendResult × Sent
unfolding hand_over
deliver_plain pipe ctx request_bot message status chat sent = elim (pipe.chats chat) [
  | err why ↦ (err (resolving_chat why), sent)
  | ok found ↦ elim (resolve_request_bot pipe.bots ctx request_bot found.bot) [
    | err why ↦ (err (bot_refused why), sent)
    | ok bot ↦ hand_over pipe chat (plain_payload bot found.chat_id message status) sent
  ]
]

unfoldable pub fanout_send :
    Pipeline → Context → List Text → Text → Text → Text → Sent → Fanout Sent
unfolding fanout deliver_plain
fanout_send pipe ctx targets request_bot message status sent =
    fanout (deliver_plain pipe ctx request_bot message status) targets sent

unfoldable pub write_multi_send : List SendResult → List SendError → ℕ → Response
write_multi_send [] errs success_status = multi 502 false [] errs
write_multi_send (r ∷ results) errs success_status = multi success_status true (r ∷ results) errs
