-- ===== src/Server/Send/Laws.antt =====
-- What the send endpoint hands to the send function.
use express_send.Common.{
  ◌>>=◌, ok, ℕ, Bool, true, false, not, if◌then◌else◌, none, some, List, [], ◌∷◌, ◌++◌, ◌≡◌, ◌≢◌,
  ◌↔◌, inl, inr, refl, arith, Bool-cases, Option-cases, Result-cases, All, All-append,
}
use express_send.Text.{Text, codes, eqb}
use express_send.Text.Laws.{eqb_iff}
use express_send.Mentions.Parse.{Outside}
use express_send.Server.Types.{Context, SendPayload, hex_run, uuid_groups, is_uuid}
use express_send.Server.Bots.{resolve_request_bot}
use express_send.Server.MultiSend.{Pipeline, Sent, parse_chat_ids, hand_over}
use express_send.Server.MultiSend.Laws.{fanout-kept}
use express_send.Server.Auth.{is_empty, chat_allowed, check_targets, authorize_targets}
use express_send.Server.Auth.Laws.{IsAllowed, authorize_targets_resolved}
use express_send.Server.Notify.Laws.{InScope}
use express_send.Server.Form.{JsonReader}
use express_send.Server.Send.{
  SendRequest, read_body, check_payload, handle_send, SendConfig, validate_async_routing,
  validate_targets, routing_mode_of, oversized, deliver_async, enqueue, send_async, deliver_sync,
  send_sync,
}

module _ (to_lower : Text → Text) (pipe : Pipeline) (ctx : Context) (cfg : SendConfig) where
  deliver_sync-InScope :
      (common : Outside) (of_bots : List (Text × Outside)) (p : SendPayload) (no_parse : Bool)
      (target : Text) (sent : Sent)
      → IsAllowed to_lower pipe.chats ctx target
      → All (InScope to_lower ctx) sent
      → All
          (InScope to_lower ctx)
          (deliver_sync to_lower pipe ctx cfg common of_bots p no_parse target sent).1
  unfolding deliver_sync hand_over
  deliver_sync-InScope common of_bots p no_parse target sent (chat, e, allowed) h =
      elim (Result-cases (resolve_request_bot pipe.bots ctx p.bot chat.bot)) [
        | inl (b, eb) ↦
            rw (e, eb, deliver_sync) (All-append (InScope to_lower ctx) sent _ h (allowed, tt))
        | inr (why, eb) ↦ rw (e, eb, deliver_sync) h
      ]

  send_sync-InScope :
      (common : Outside) (of_bots : List (Text × Outside)) (p : SendPayload) (no_parse : Bool)
      → ctx.key_scope ≢ []
      → All (InScope to_lower ctx) (send_sync to_lower pipe ctx cfg common of_bots p no_parse []).1
  unfolding send_sync
  send_sync-InScope common of_bots p no_parse ne =
      let targets = parse_chat_ids p.chat_id in
      elim (Option-cases (authorize_targets to_lower pipe.chats ctx targets true)) [
        | inr (response, e) ↦ rw (e, send_sync) (ground arith)
        | inl e ↦
            let all =
              fanout-kept (All (InScope to_lower ctx)) (IsAllowed to_lower pipe.chats ctx)
                (deliver_sync to_lower pipe ctx cfg common of_bots p no_parse)
                (deliver_sync-InScope common of_bots p no_parse) targets []
                ((authorize_targets_resolved to_lower pipe.chats ctx targets ne).0 e) tt in
            rw (e, send_sync) (ground arith)
      ]

  -- A chat that is a UUID is within the scope of the caller.
  abbrev pub UuidInScope : Text → Type 0
  UuidInScope chat = is_uuid chat ≡ true → chat_allowed to_lower ctx chat ≡ true

  check_targets-UuidInScope :
      (targets : List Text)
      → check_targets to_lower pipe.chats ctx false targets ≡ none
      → All UuidInScope targets
  unfolding check_targets
  check_targets-UuidInScope [] h = tt
  check_targets-UuidInScope (t ∷ targets) h =
      ((λ uuid. ground arith), check_targets-UuidInScope targets (ground arith))

  unscoped : (targets : List Text) → is_empty ctx.key_scope ≡ true → All UuidInScope targets
  unfolding chat_allowed
  unscoped [] e = tt
  unscoped (t ∷ targets) e = ((λ uuid. rw (e, chat_allowed) refl), unscoped targets e)

  authorize_targets-UuidInScope :
      (targets : List Text)
      → authorize_targets to_lower pipe.chats ctx targets false ≡ none
      → All UuidInScope targets
  unfolding authorize_targets
  authorize_targets-UuidInScope targets h = elim (Bool-cases (is_empty ctx.key_scope)) [
    | inl e ↦ unscoped targets e
    | inr e ↦ check_targets-UuidInScope targets (rw (e, authorize_targets) at h)
  ]

  -- A chat that the routing mode of a request admits.
  abbrev pub Routable : SendPayload → Text → Type 0
  Routable p chat = validate_async_routing (routing_mode_of cfg p) p.bot_id p.bot chat ≡ none

  validate_targets-Routable :
      (p : SendPayload) (targets : List Text)
      → validate_targets (routing_mode_of cfg p) p targets ≡ none
      → All (Routable p) targets
  unfolding validate_targets
  validate_targets-Routable p [] h = tt
  validate_targets-Routable p (t ∷ targets) h =
      elim (Option-cases (validate_async_routing (routing_mode_of cfg p) p.bot_id p.bot t)) [
        | inr (why, e) ↦ absurd (let bad = rw (e, validate_targets) at h in cc)
        | inl e ↦ (e, validate_targets-Routable p targets (rw (e, validate_targets) at h))
      ]

  -- What is queued for a request: a chat that its routing mode admits, that is within the scope
  -- where it is a UUID, with a file below the limit.
  abbrev pub Queueable : SendPayload → SendPayload → Type 0
  Queueable p q = Routable p q.chat_id × UuidInScope q.chat_id × (oversized cfg q ≡ false)

  Admitted : SendPayload → Text → Type 0
  Admitted p chat = Routable p chat × UuidInScope chat

  All-both :
      (p : SendPayload) (targets : List Text)
      → All (Routable p) targets
      → All UuidInScope targets
      → All (Admitted p) targets
  unfolding Admitted
  All-both p [] h k = tt
  All-both p (t ∷ targets) h k = ((h.0, k.0), All-both p targets h.1 k.1)

  deliver_async-Queueable :
      (p : SendPayload) (target : Text) (s : Sent × ℕ)
      → oversized cfg p ≡ false
      → Admitted p target
      → All (Queueable p) s.0
      → All (Queueable p) (deliver_async to_lower pipe ctx cfg p target s).1.0
  unfolding deliver_async Admitted oversized
  deliver_async-Queueable p target (sent, denied) fits (routable, inside) h =
      let q = record p { chat_id = target } in
      let all : All (Queueable p) (sent ++ q ∷ []) =
        All-append (Queueable p) sent (q ∷ []) h ((routable, inside, fits), tt) in
      elim (Result-cases (pipe.send sent q)) [
        | inl (id, e) ↦ rw (e, deliver_async) all
        | inr (why, e) ↦ rw (e, deliver_async) all
      ]

  enqueue-Queueable :
      (p : SendPayload) (targets : List Text)
      → oversized cfg p ≡ false
      → All (Admitted p) targets
      → All (Queueable p) (enqueue to_lower pipe ctx cfg p targets []).1
  unfolding enqueue
  enqueue-Queueable p targets fits admitted =
      fanout-kept (λ (s : Sent × ℕ). All (Queueable p) s.0) (Admitted p)
        (deliver_async to_lower pipe ctx cfg p)
        (λ target s ok_ h. deliver_async-Queueable p target s fits ok_ h) targets ([], 0) admitted
        tt

  send_async-Queueable :
      (payload : SendPayload) (no_parse : Bool)
      → All
          (Queueable (record payload { no_parse = no_parse }))
          (send_async to_lower pipe ctx cfg payload no_parse []).1
  unfolding send_async
  send_async-Queueable payload no_parse =
      let p = record payload { no_parse = no_parse } in
      let targets = parse_chat_ids payload.chat_id in
      elim (Option-cases (authorize_targets to_lower pipe.chats ctx targets false)) [
        | inr (response, e) ↦ rw (e, send_async) (ground arith)
        | inl e ↦ elim (Option-cases (validate_targets (routing_mode_of cfg p) p targets)) [
          | inr (why, e') ↦ rw (e, e', send_async) (ground arith)
          | inl e' ↦ elim (Bool-cases (oversized cfg p)) [
            | inl over ↦ rw (e, e', over, send_async) (ground arith)
            | inr fits ↦
                let all = enqueue-Queueable p targets fits (
                  All-both p targets (validate_targets-Routable p targets e')
                    (authorize_targets-UuidInScope targets e)) in
                rw (e, e', fits, send_async) (ground arith)
          ]
        ]
      ]

  -- In synchronous mode, with a scoped key, everything that a /send request hands to the send
  -- function is for a chat within the scope, whatever the body and the answers.
  pub handle_send-InScope :
      (json : JsonReader) (common : Outside) (of_bots : List (Text × Outside)) (r : SendRequest)
      → cfg.async_mode ≡ false
      → ctx.key_scope ≢ []
      → All (InScope to_lower ctx) (handle_send to_lower pipe ctx cfg json common of_bots r []).1
  unfolding handle_send
  handle_send-InScope json common of_bots r sync ne =
      elim (Result-cases (read_body json r.body >>= check_payload cfg)) [
        | inr (response, e) ↦ rw (e, handle_send) tt
        | inl (p, e) ↦ rw (e, sync, handle_send) (send_sync-InScope common of_bots p r.no_parse ne)
      ]

  -- In asynchronous mode, everything that a /send request with an accepted payload queues is for
  -- a chat that its routing mode admits, and that is within the caller's scope where it is a UUID;
  -- its file is not over the limit.
  pub handle_send-Queueable :
      (json : JsonReader) (common : Outside) (of_bots : List (Text × Outside)) (r : SendRequest)
      (p : SendPayload)
      → cfg.async_mode ≡ true
      → (read_body json r.body >>= check_payload cfg) ≡ ok p
      → All
          (Queueable (record p { no_parse = r.no_parse }))
          (handle_send to_lower pipe ctx cfg json common of_bots r []).1
  unfolding handle_send
  handle_send-Queueable json common of_bots r p async e =
      rw (e, async, handle_send) (send_async-Queueable p r.no_parse)

-- Three refusals in a row, the first of which the second implies.
three_checks :
    (a b c : Bool) (x y z : Text)
    → (a ≡ true → b ≡ false)
    → ((if a then some x else if not b then some y else if not c then some z else none) ≡ none)
      ↔ ((b ≡ true) × (c ≡ true))
three_checks a b c x y z h = (λ e. ground arith, λ (f, g). ground arith)

empty_uuid : (s : Text) → eqb s [] ≡ true → is_uuid s ≡ false
unfolding is_uuid uuid_groups hex_run
empty_uuid s h = rw ((eqb_iff s []).0 h) refl

-- Direct routing takes a chat exactly when both the bot and the chat are UUIDs.
pub validate_async_routing-direct :
    (bot_id bot_alias chat : Text)
    → (validate_async_routing (codes "direct") bot_id bot_alias chat ≡ none)
      ↔ ((is_uuid bot_id ≡ true) × (is_uuid chat ≡ true))
unfolding validate_async_routing eqb
validate_async_routing-direct bot_id bot_alias chat =
    three_checks (eqb bot_id []) (is_uuid bot_id) (is_uuid chat) _ _ _ (empty_uuid bot_id)
