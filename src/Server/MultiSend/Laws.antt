-- ===== src/Server/MultiSend/Laws.antt =====
-- The chats that a request names, and what a fan-out over them returns.
use express_send.Common.{
  ◌&&◌, not, false, List, [], ◌∷◌, ◌++◌, ◌≡◌, inl, inr, refl, ap, sym, subst, arith, map, Result,
  ok, err, Result-cases, All,
}
use express_send.Text.{Text, eqb, contains, split}
use express_send.Text.Laws.{eqb_iff, eqb_refl}
use express_send.Text.Sets.{Distinct}
use express_send.Server.Types.{
  Context, ChatResult, BotRefusal, SendFailure, Failure, resolving_chat, bot_refused, not_sent,
  SendResult, SendError,
}
use express_send.Server.Bots.{resolve_request_bot}
use express_send.Server.MultiSend.{
  trim_space, collect_chats, parse_chat_ids, Fanout, fanout, Pipeline, Sent, hand_over,
  deliver_plain, fanout_send, plain_payload,
}

contains-collect_chats :
    (parts seen : List Text) (a : Text)
    → contains a (collect_chats seen parts)
      ≡ (not (eqb a []) && not (contains a seen) && contains a (map trim_space parts))
unfolding collect_chats contains
contains-collect_chats [] seen a = ground arith
contains-collect_chats (p ∷ parts) seen a =
    let chat = trim_space p in
    ground (
      arith,
      contains-collect_chats parts seen a,
      contains-collect_chats parts (chat ∷ seen) a,
      eqb_iff chat a,
      eqb_iff chat [],
      eqb_iff a [],
    )

collect_chats-Distinct : (parts seen : List Text) → Distinct (collect_chats seen parts)
unfolding collect_chats contains
collect_chats-Distinct [] seen = tt
collect_chats-Distinct (p ∷ parts) seen =
    let chat = trim_space p in
    ground (
      arith,
      contains-collect_chats parts (chat ∷ seen) chat,
      eqb_refl chat,
      collect_chats-Distinct parts seen,
      collect_chats-Distinct parts (chat ∷ seen),
    )

-- The chats of a request are the trimmed parts of the value between commas, less the empty ones.
pub contains-parse_chat_ids :
    (raw a : Text)
    → contains a (parse_chat_ids raw)
      ≡ (not (eqb a []) && contains a (map trim_space (split raw b',')))
unfolding parse_chat_ids contains
contains-parse_chat_ids raw a = ground (arith, contains-collect_chats (split raw b',') [] a)

-- No chat is named twice.
pub parse_chat_ids-Distinct : (raw : Text) → Distinct (parse_chat_ids raw)
unfolding parse_chat_ids
parse_chat_ids-Distinct raw = collect_chats-Distinct (split raw b',') []

-- What a delivery to each target keeps of the state, a fan-out over the targets keeps.
module _ {S : Type 0} (Inv : S → Type 0) (ok_target : Text → Type 0)
    (deliver : Text → S → Result Failure SendResult × S)
    (keeps : (target : Text) (s : S) → ok_target target → Inv s → Inv (deliver target s).1) where
  pub fanout-kept :
      (targets : List Text) (s : S)
      → All ok_target targets
      → Inv s
      → Inv (fanout deliver targets s).state
  unfolding fanout
  fanout-kept [] s h k = k
  fanout-kept (target ∷ targets) s h k =
      let rest = fanout-kept targets (deliver target s).1 h.1 (keeps target s h.0 k) in
      elim (Result-cases (deliver target s).0) [
        | inl (res, e) ↦ rw (e, fanout) rest
        | inr (why, e) ↦ rw (e, fanout) rest
      ]

-- What a fan-out of a message does: each target, in order, is resolved and given a bot, and one
-- payload for the chat is handed over; its delivery or its error names the target, and a target
-- without a chat or a bot gives an error and hands over nothing.
pub data Attempts (pipe : Pipeline) (ctx : Context) (request_bot message status : Text)
    : List Text → Sent → List SendResult → List SendError → Sent → Type 0 where
  done : {sent : Sent} → Attempts pipe ctx request_bot message status [] sent [] [] sent
  unresolved :
      {target why : Text} {targets : List Text} {results : List SendResult} {errs : List SendError}
      {sent last : Sent}
      → pipe.chats target ≡ err why
      → Attempts pipe ctx request_bot message status targets sent results errs last
      → Attempts pipe ctx request_bot message status
          (target ∷ targets)
          sent
          results
          (record { chat = target; error = resolving_chat why } ∷ errs)
          last
  no_bot :
      {target : Text} {chat : ChatResult} {why : BotRefusal} {targets : List Text}
      {results : List SendResult} {errs : List SendError} {sent last : Sent}
      → pipe.chats target ≡ ok chat
      → resolve_request_bot pipe.bots ctx request_bot chat.bot ≡ err why
      → Attempts pipe ctx request_bot message status targets sent results errs last
      → Attempts pipe ctx request_bot message status
          (target ∷ targets)
          sent
          results
          (record { chat = target; error = bot_refused why } ∷ errs)
          last
  refused_ :
      {target bot : Text} {chat : ChatResult} {why : SendFailure} {targets : List Text}
      {results : List SendResult} {errs : List SendError} {sent last : Sent}
      → pipe.chats target ≡ ok chat
      → resolve_request_bot pipe.bots ctx request_bot chat.bot ≡ ok bot
      → pipe.send sent (plain_payload bot chat.chat_id message status) ≡ err why
      → Attempts pipe ctx request_bot message status targets
          (sent ++ plain_payload bot chat.chat_id message status ∷ [])
          results
          errs
          last
      → Attempts pipe ctx request_bot message status
          (target ∷ targets)
          sent
          results
          (record { chat = target; error = not_sent why } ∷ errs)
          last
  delivered :
      {target bot sync_id : Text} {chat : ChatResult} {targets : List Text}
      {results : List SendResult} {errs : List SendError} {sent last : Sent}
      → pipe.chats target ≡ ok chat
      → resolve_request_bot pipe.bots ctx request_bot chat.bot ≡ ok bot
      → pipe.send sent (plain_payload bot chat.chat_id message status) ≡ ok sync_id
      → Attempts pipe ctx request_bot message status targets
          (sent ++ plain_payload bot chat.chat_id message status ∷ [])
          results
          errs
          last
      → Attempts pipe ctx request_bot message status
          (target ∷ targets)
          sent
          (record { chat = target; sync_id = sync_id; request_id = []; queued = false } ∷ results)
          errs
          last

module _ {S : Type 0} (deliver : Text → S → Result Failure SendResult × S) (target : Text)
    (targets : List Text) (s s' : S) where
  fanout_ok :
      (res : SendResult)
      → deliver target s ≡ (ok res, s')
      → let rest = fanout deliver targets s' in
        fanout deliver (target ∷ targets) s
        ≡ record { results = res ∷ rest.results; errs = rest.errs; state = rest.state }
  unfolding fanout
  fanout_ok res d =
      rw (ap (λ (r : Result Failure SendResult × S). r.0) d, fanout)
        (ap
          (λ x. record {
            results = res ∷ (fanout deliver targets x).results;
            errs = (fanout deliver targets x).errs;
            state = (fanout deliver targets x).state;
          })
          (ap (λ (r : Result Failure SendResult × S). r.1) d))

  fanout_err :
      (e : Failure)
      → deliver target s ≡ (err e, s')
      → let rest = fanout deliver targets s' in
        fanout deliver (target ∷ targets) s ≡ record {
          results = rest.results;
          errs = record { chat = target; error = e } ∷ rest.errs;
          state = rest.state;
        }
  unfolding fanout
  fanout_err e d =
      rw (ap (λ (r : Result Failure SendResult × S). r.0) d, fanout)
        (ap
          (λ x. record {
            results = (fanout deliver targets x).results;
            errs = record { chat = target; error = e } ∷ (fanout deliver targets x).errs;
            state = (fanout deliver targets x).state;
          })
          (ap (λ (r : Result Failure SendResult × S). r.1) d))

module _ (pipe : Pipeline) (ctx : Context) (request_bot message status : Text) where
  AttemptsOf : List Text → Sent → Fanout Sent → Type 0
  AttemptsOf targets sent out =
      Attempts pipe ctx request_bot message status targets sent out.results out.errs out.state

  fanout-Attempts :
      (targets : List Text) (sent : Sent)
      → AttemptsOf targets sent
          (fanout (deliver_plain pipe ctx request_bot message status) targets sent)
  unfolding AttemptsOf
  fanout-Attempts [] sent = unfold fanout in done
  fanout-Attempts (target ∷ targets) sent =
      let deliver = deliver_plain pipe ctx request_bot message status in
      let here = AttemptsOf (target ∷ targets) sent in
      elim (Result-cases (pipe.chats target)) [
        | inr (why, e) ↦
            subst here
              (sym (
                fanout_err deliver target targets sent sent (resolving_chat why)
                  (unfold deliver_plain in rw (e, deliver_plain) refl)))
              (unresolved e (fanout-Attempts targets sent))
        | inl (chat, e) ↦
            elim (Result-cases (resolve_request_bot pipe.bots ctx request_bot chat.bot)) [
              | inr (why, e') ↦
                  subst here
                    (sym (
                      fanout_err deliver target targets sent sent (bot_refused why)
                        (unfold deliver_plain in rw (e, e', deliver_plain) refl)))
                    (no_bot e e' (fanout-Attempts targets sent))
              | inl (bot, e') ↦
                  let p = plain_payload bot chat.chat_id message status in
                  let sent' = sent ++ p ∷ [] in
                  let rest = fanout-Attempts targets sent' in
                  elim (Result-cases (pipe.send sent p)) [
                    | inr (why, s) ↦
                        subst here
                          (sym (
                            fanout_err deliver target targets sent sent' (not_sent why) (
                              unfold deliver_plain hand_over in
                              rw (e, e', s, deliver_plain, hand_over) refl)))
                          (refused_ e e' s rest)
                    | inl (id, s) ↦
                        subst here
                          (sym (
                            fanout_ok deliver target targets sent sent'
                              (record {
                                chat = target;
                                sync_id = id;
                                request_id = [];
                                queued = false;
                              })
                              (unfold deliver_plain hand_over in
                                rw (e, e', s, deliver_plain, hand_over) refl)))
                          (delivered e e' s rest)
                  ]
            ]
      ]

  -- The fan-out of a message attempts every target, in order: each resolved target with a bot has one
  -- payload handed over, and gives the delivery or the error that the send function answers.
  pub fanout_send-Attempts :
      (targets : List Text) (sent : Sent)
      → let out = fanout_send pipe ctx targets request_bot message status sent in
        Attempts pipe ctx request_bot message status targets sent out.results out.errs out.state
  unfolding fanout_send AttemptsOf
  fanout_send-Attempts targets sent = fanout-Attempts targets sent
