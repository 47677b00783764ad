-- ===== src/Server/Notify/Laws.antt =====
-- Alert webhooks stay within the scope of the caller's key.
use express_send.Common.{
  true, Option, none, some, List, [], ◌∷◌, ◌≡◌, ◌≢◌, ◌↔◌, inl, inr, arith, Bool-cases, Option-cases,
  Result-cases, All, All-append,
}
use express_send.Text.{Text, codes, contains}
use express_send.Text.Laws.{eqb_iff}
use express_send.Server.Types.{Context, SendPayload}
use express_send.Server.Bots.{resolve_request_bot}
use express_send.Server.MultiSend.{Pipeline, Sent, hand_over, deliver_plain, fanout_send}
use express_send.Server.MultiSend.Laws.{fanout-kept}
use express_send.Server.Auth.{is_empty, chat_allowed, authorize_targets}
use express_send.Server.Auth.Laws.{IsAllowed, authorize_targets_resolved}
use express_send.Server.Notify.{
  WebhookRequest, AlertItem, AlertmanagerConfig, GrafanaConfig, send_authorized, choose_targets,
  notify, handle_alertmanager, handle_grafana, any_severity, resolve_alert_status,
  AlertmanagerWebhook,
}

-- A payload for a chat of the caller's scope.
abbrev pub InScope : (Text → Text) → Context → SendPayload → Type 0
InScope to_lower ctx p = chat_allowed to_lower ctx p.chat_id ≡ true

module _ (to_lower : Text → Text) (pipe : Pipeline) (ctx : Context) where
  deliver_plain-InScope :
      (bot message status target : Text) (sent : Sent)
      → IsAllowed to_lower pipe.chats ctx target
      → All (InScope to_lower ctx) sent
      → All (InScope to_lower ctx) (deliver_plain pipe ctx bot message status target sent).1
  unfolding deliver_plain hand_over
  deliver_plain-InScope bot message status target sent (chat, e, allowed) h =
      elim (Result-cases (resolve_request_bot pipe.bots ctx bot chat.bot)) [
        | inl (b, eb) ↦
            rw (e, eb, deliver_plain) (All-append (InScope to_lower ctx) sent _ h (allowed, tt))
        | inr (why, eb) ↦ rw (e, eb, deliver_plain) h
      ]

  send_authorized-InScope :
      (targets : List Text) (bot message status : Text) (sent : Sent)
      → ctx.key_scope ≢ []
      → All (InScope to_lower ctx) sent
      → All
          (InScope to_lower ctx)
          (send_authorized to_lower pipe ctx targets bot message status sent).1
  unfolding send_authorized fanout_send
  send_authorized-InScope targets bot message status sent ne h =
      elim (Option-cases (authorize_targets to_lower pipe.chats ctx targets true)) [
        | inr (response, e) ↦ rw (e, send_authorized) h
        | inl e ↦
            rw (e, send_authorized)
              (fanout-kept (All (InScope to_lower ctx)) (IsAllowed to_lower pipe.chats ctx)
                (deliver_plain pipe ctx bot message status)
                (deliver_plain-InScope bot message status) targets sent
                ((authorize_targets_resolved to_lower pipe.chats ctx targets ne).0 e) h)
      ]

  notify-InScope :
      (r : WebhookRequest) (single message status : Text) (sent : Sent)
      → ctx.key_scope ≢ []
      → All (InScope to_lower ctx) sent
      → All (InScope to_lower ctx) (notify to_lower pipe ctx r single message status sent).1
  unfolding notify
  notify-InScope r single message status sent ne h =
      elim (Result-cases (choose_targets r.chat_id single)) [
        | inl (targets, e) ↦
            rw (e, notify) (send_authorized-InScope targets r.bot message status sent ne h)
        | inr (why, e) ↦ rw (e, notify) h
      ]

  handle_alertmanager-kept :
      (alias : Text) (cfg : Option AlertmanagerConfig) (r : WebhookRequest) (sent : Sent)
      → ctx.key_scope ≢ []
      → All (InScope to_lower ctx) sent
      → All (InScope to_lower ctx) (handle_alertmanager to_lower pipe ctx alias cfg r sent).1
  unfolding handle_alertmanager
  handle_alertmanager-kept alias none r sent ne h = h
  handle_alertmanager-kept alias (some cfg) r sent ne h = elim (Result-cases (cfg.decode r.body)) [
    | inr (why, e) ↦ rw (e, handle_alertmanager) h
    | inl (webhook, e) ↦ elim (Bool-cases (is_empty webhook.alerts)) [
      | inl none_ ↦ rw (e, none_, handle_alertmanager) h
      | inr some_ ↦ elim (Result-cases (cfg.execute webhook)) [
        | inr (why, e') ↦ rw (e, some_, e', handle_alertmanager) h
        | inl (message, e') ↦
            rw (e, some_, e', handle_alertmanager) (notify-InScope r _ message _ sent ne h)
      ]
    ]
  ]

  handle_grafana-kept :
      (alias : Text) (cfg : Option GrafanaConfig) (r : WebhookRequest) (sent : Sent)
      → ctx.key_scope ≢ []
      → All (InScope to_lower ctx) sent
      → All (InScope to_lower ctx) (handle_grafana to_lower pipe ctx alias cfg r sent).1
  unfolding handle_grafana
  handle_grafana-kept alias none r sent ne h = h
  handle_grafana-kept alias (some cfg) r sent ne h = elim (Result-cases (cfg.decode r.body)) [
    | inr (why, e) ↦ rw (e, handle_grafana) h
    | inl (webhook, e) ↦ elim (Bool-cases (is_empty webhook.alerts)) [
      | inl none_ ↦ rw (e, none_, handle_grafana) h
      | inr some_ ↦ elim (Result-cases (cfg.execute webhook)) [
        | inr (why, e') ↦ rw (e, some_, e', handle_grafana) h
        | inl (message, e') ↦
            rw (e, some_, e', handle_grafana) (notify-InScope r _ message _ sent ne h)
      ]
    ]
  ]

  -- With a scoped key, everything that an Alertmanager webhook hands to the send function is for
  -- a chat within the scope, whatever the webhook, the request and the answers.
  pub handle_alertmanager-InScope :
      (alias : Text) (cfg : Option AlertmanagerConfig) (r : WebhookRequest)
      → ctx.key_scope ≢ []
      → All (InScope to_lower ctx) (handle_alertmanager to_lower pipe ctx alias cfg r []).1
  handle_alertmanager-InScope alias cfg r ne = handle_alertmanager-kept alias cfg r [] ne tt

  -- The same for a Grafana webhook.
  pub handle_grafana-InScope :
      (alias : Text) (cfg : Option GrafanaConfig) (r : WebhookRequest)
      → ctx.key_scope ≢ []
      → All (InScope to_lower ctx) (handle_grafana to_lower pipe ctx alias cfg r []).1
  handle_grafana-InScope alias cfg r ne = handle_grafana-kept alias cfg r [] ne tt

-- An alert whose severity is in a list.
pub data Severe (severities : List Text) : List AlertItem → Type 0 where
  first :
      {a : AlertItem} {alerts : List AlertItem}
      → contains a.severity severities ≡ true
      → Severe severities (a ∷ alerts)
  next :
      {a : AlertItem} {alerts : List AlertItem}
      → Severe severities alerts
      → Severe severities (a ∷ alerts)

any_severity_sound :
    (severities : List Text) (alerts : List AlertItem)
    → any_severity severities alerts ≡ true
    → Severe severities alerts
unfolding any_severity
any_severity_sound severities [] h = cc
any_severity_sound severities (a ∷ alerts) h = elim (Bool-cases (contains a.severity severities)) [
  | inl at ↦ first at
  | inr other ↦ next (any_severity_sound severities alerts (ground arith))
]

any_severity_complete :
    (severities : List Text) {alerts : List AlertItem}
    → Severe severities alerts
    → any_severity severities alerts ≡ true
unfolding any_severity
any_severity_complete severities (first at) = ground arith
any_severity_complete severities (next more) = ground (arith, any_severity_complete severities more)

-- An Alertmanager message is an error exactly when its group is not resolved and one of its
-- alerts has a severity of the configured list.
pub resolve_alert_status_iff :
    (severities : List Text) (webhook : AlertmanagerWebhook)
    → (resolve_alert_status severities webhook ≡ codes "error")
      ↔ ((webhook.status ≢ codes "resolved") × Severe severities webhook.alerts)
unfolding resolve_alert_status
resolve_alert_status_iff severities webhook =
    let test = eqb_iff webhook.status (codes "resolved") in
    (
      λ h. (
        (λ same. let r = test.1 same in ground arith),
        any_severity_sound severities webhook.alerts (ground arith),
      ),
      λ (ne, severe). ground (arith, any_severity_complete severities severe),
    )
