-- ===== src/Server/Send/Hiding.antt =====
-- What the responses tell a scoped caller of failures.
use express_send.Common.{
  ◌>>=◌, ok, Bool, true, false, length, ◌&&◌, ◌==◌, List, [], ◌≡◌, ◌≢◌, inl, inr, Bool-cases,
  Option-cases,
}
use express_send.Text.{Text}
use express_send.Mentions.Parse.{Outside}
use express_send.Server.Types.{Context, SendPayload}
use express_send.Server.MultiSend.{Pipeline, Sent, parse_chat_ids, fanout}
use express_send.Server.Auth.{is_empty, authorize_targets}
use express_send.Server.Form.{JsonReader}
use express_send.Server.Send.{
  SendRequest, read_body, check_payload, handle_send, SendConfig, validate_targets, routing_mode_of,
  oversized, deliver_async, enqueue, send_async, deliver_sync, send_sync,
}
use express_send.Server.Auth.Hiding.{Hides, authorize_targets-Hides, write_multi_send-Hides}

module _ (to_lower : Text → Text) (pipe : Pipeline) (ctx : Context) (cfg : SendConfig) where
  enqueue-Hides :
      (p : SendPayload) (targets : List Text) (sent : Sent)
      → ctx.key_scope ≢ []
      → Hides (enqueue to_lower pipe ctx cfg p targets sent).0
  unfolding enqueue
  enqueue-Hides p targets sent ne =
      let out = fanout (deliver_async to_lower pipe ctx cfg p) targets (sent, 0) in
      elim (Bool-cases (is_empty out.results && out.state.1 == length targets)) [
        | inl e ↦ rw (e, enqueue) tt
        | inr e ↦ rw (e, enqueue) (write_multi_send-Hides ctx out.results out.errs 202 ne)
      ]

  send_async-Hides :
      (payload : SendPayload) (no_parse : Bool) (sent : Sent)
      → ctx.key_scope ≢ []
      → Hides (send_async to_lower pipe ctx cfg payload no_parse sent).0
  unfolding send_async
  send_async-Hides payload no_parse sent ne =
      let p = record payload { no_parse = no_parse } in
      let targets = parse_chat_ids payload.chat_id in
      elim (Bool-cases (is_empty targets)) [
        | inl empty ↦ rw (empty, send_async) tt
        | inr full ↦ elim (Option-cases (authorize_targets to_lower pipe.chats ctx targets false)) [
          | inr (response, e) ↦
              rw (full, e, send_async)
                (authorize_targets-Hides to_lower pipe.chats ctx false targets response ne e)
          | inl e ↦ elim (Option-cases (validate_targets (routing_mode_of cfg p) p targets)) [
            | inr (why, e') ↦ rw (full, e, e', send_async) tt
            | inl e' ↦ elim (Bool-cases (oversized cfg p)) [
              | inl over ↦ rw (full, e, e', over, send_async) tt
              | inr fits ↦ rw (full, e, e', fits, send_async) (enqueue-Hides p targets sent ne)
            ]
          ]
        ]
      ]

  send_sync-Hides :
      (common : Outside) (of_bots : List (Text × Outside)) (payload : SendPayload) (no_parse : Bool)
      (sent : Sent)
      → ctx.key_scope ≢ []
      → Hides (send_sync to_lower pipe ctx cfg common of_bots payload no_parse sent).0
  unfolding send_sync
  send_sync-Hides common of_bots payload no_parse sent ne =
      let targets = parse_chat_ids payload.chat_id in
      elim (Bool-cases (is_empty targets)) [
        | inl empty ↦ rw (empty, send_sync) tt
        | inr full ↦ elim (Option-cases (authorize_targets to_lower pipe.chats ctx targets true)) [
          | inr (response, e) ↦
              rw (full, e, send_sync)
                (authorize_targets-Hides to_lower pipe.chats ctx true targets response ne e)
          | inl e ↦
              let out =
                fanout (deliver_sync to_lower pipe ctx cfg common of_bots payload no_parse) targets
                  sent in
              rw (full, e, send_sync) (write_multi_send-Hides ctx out.results out.errs 200 ne)
        ]
      ]

  -- With a scoped key, the response to a /send request with an accepted payload tells of a failed
  -- delivery only the name of its chat, in both modes, and no refusal quotes an error of the chat
  -- resolver.
  pub handle_send-Hides :
      (json : JsonReader) (common : Outside) (of_bots : List (Text × Outside)) (r : SendRequest)
      (p : SendPayload) (sent : Sent)
      → ctx.key_scope ≢ []
      → (read_body json r.body >>= check_payload cfg) ≡ ok p
      → Hides (handle_send to_lower pipe ctx cfg json common of_bots r sent).0
  unfolding handle_send
  handle_send-Hides json common of_bots r p sent ne e = elim (Bool-cases cfg.async_mode) [
    | inl async ↦ rw (e, async, handle_send) (send_async-Hides p r.no_parse sent ne)
    | inr sync ↦ rw (e, sync, handle_send) (send_sync-Hides common of_bots p r.no_parse sent ne)
  ]
