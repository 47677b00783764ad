-- ===== src/Server/Notify.antt =====
-- The alert webhooks: internal/server/handler_alertmanager.go and handler_grafana.go. Decoding
-- the body and executing the template are fields of the configuration of a webhook.
pub mod Laws
pub mod Hiding
use express_send.Common.{
  ℕ, Bool, true, false, ◌&&◌, ◌||◌, not, if◌then◌else◌, Option, none, some, List, [], ◌∷◌, Result,
  ok, err,
}
use express_send.Text.{Text, codes, eqb, contains, is_some}
use express_send.Server.Types.{
  Context, ChatResult, Message, chat_required, chat_empty, invalid_json, template_error, no_alerts,
  not_configured, Response, refused,
}
use express_send.Server.MultiSend.{parse_chat_ids, Pipeline, Sent, fanout_send, write_multi_send}
use express_send.Server.Auth.{is_empty, authorize_targets, sanitize_errors}

-- A request: its body, the value of ?chat_id where it is present, and of ?bot ("" without one).
pub record WebhookRequest : Type 0 where
  pub body : Text
  pub chat_id : Option Text
  pub bot : Text

-- The fields of an alert that the code reads; "" for a missing label.
pub record AlertItem : Type 0 where
  pub severity : Text

pub record AlertmanagerWebhook : Type 0 where
  pub status : Text
  pub alerts : List AlertItem

pub record AlertmanagerConfig : Type 0 where
  pub default_chat_id : Text
  pub error_severities : List Text
  pub fallback_chat_id : Text
  pub decode : Text → Result Text AlertmanagerWebhook
  pub execute : AlertmanagerWebhook → Result Text Text

pub record GrafanaWebhook : Type 0 where
  pub status : Text
  pub state : Text
  pub alerts : List AlertItem

pub record GrafanaConfig : Type 0 where
  pub default_chat_id : Text
  pub error_states : List Text
  pub fallback_chat_id : Text
  pub decode : Text → Result Text GrafanaWebhook
  pub execute : GrafanaWebhook → Result Text Text

-- `singleChat` of both configurations.
abbrev pub single_chat : Text → Text → Text → Text
single_chat default_chat_id global_default fallback_chat_id =
    if not (eqb default_chat_id [])
    then default_chat_id
    else if not (eqb global_default [])
    then global_default
    else fallback_chat_id

-- Does an alert have a severity of the list?
unfoldable pub any_severity : List Text → List AlertItem → Bool
unfolding contains
any_severity severities [] = false
any_severity severities (a ∷ alerts) =
    contains a.severity severities || any_severity severities alerts

unfoldable pub resolve_alert_status : List Text → AlertmanagerWebhook → Text
unfolding any_severity
resolve_alert_status severities webhook =
    if eqb webhook.status (codes "resolved")
    then codes "ok"
    else if any_severity severities webhook.alerts
    then codes "error"
    else codes "ok"

unfoldable pub resolve_grafana_status : List Text → GrafanaWebhook → Text
unfolding contains
resolve_grafana_status states webhook =
    if eqb webhook.status (codes "resolved")
    then codes "ok"
    else if contains webhook.state states
    then codes "error"
    else codes "ok"

-- `r.URL.Query().Get("chat_id")`, parsed.
abbrev pub query_chats : Option Text → List Text
query_chats none = parse_chat_ids []
query_chats (some raw) = parse_chat_ids raw

-- The target chats of a webhook: those of ?chat_id, else the single chat of the configuration.
unfoldable pub choose_targets : Option Text → Text → Result Message (List Text)
choose_targets chat_id single =
    let targets = query_chats chat_id in
    if is_empty targets && is_some chat_id
    then err chat_empty
    else if not (is_empty targets)
    then ok targets
    else if not (eqb single [])
    then ok (single ∷ [])
    else err chat_required

module _ (to_lower : Text → Text) (pipe : Pipeline) (ctx : Context) where
  -- Both handlers from the authorization on.
  unfoldable pub send_authorized : List Text → Text → Text → Text → Sent → Response × Sent
  unfolding authorize_targets
  send_authorized targets bot message status sent =
      let out = fanout_send pipe ctx targets bot message status sent in
      elim (authorize_targets to_lower pipe.chats ctx targets true) [
        | some response ↦ (response, sent)
        | none ↦ (write_multi_send out.results (sanitize_errors ctx out.errs) 200, out.state)
      ]

  -- Both handlers from the target chats on.
  unfoldable pub notify : WebhookRequest → Text → Text → Text → Sent → Response × Sent
  unfolding send_authorized choose_targets
  notify r single message status sent = elim (choose_targets r.chat_id single) [
    | err why ↦ (refused 400 why, sent)
    | ok targets ↦ send_authorized targets r.bot message status sent
  ]

-- `default_chat_alias` is the default chat of the server's configuration.
module _ (to_lower : Text → Text) (pipe : Pipeline) (ctx : Context)
    (default_chat_alias : Text) where
  unfoldable pub handle_alertmanager :
      Option AlertmanagerConfig → WebhookRequest → Sent → Response × Sent
  unfolding notify resolve_alert_status
  handle_alertmanager none r sent = (refused 500 not_configured, sent)
  handle_alertmanager (some cfg) r sent = elim (cfg.decode r.body) [
    | err why ↦ (refused 400 (invalid_json why), sent)
    | ok webhook ↦
        let answer : Response × Sent = elim (cfg.execute webhook) [
          | err why ↦ (refused 400 (template_error why), sent)
          | ok message ↦
              notify to_lower pipe ctx r
                (single_chat cfg.default_chat_id default_chat_alias cfg.fallback_chat_id) message
                (resolve_alert_status cfg.error_severities webhook) sent
        ] in
        if is_empty webhook.alerts then (refused 400 no_alerts, sent) else answer
  ]

  unfoldable pub handle_grafana : Option GrafanaConfig → WebhookRequest → Sent → Response × Sent
  unfolding notify resolve_grafana_status
  handle_grafana none r sent = (refused 500 not_configured, sent)
  handle_grafana (some cfg) r sent = elim (cfg.decode r.body) [
    | err why ↦ (refused 400 (invalid_json why), sent)
    | ok webhook ↦
        let answer : Response × Sent = elim (cfg.execute webhook) [
          | err why ↦ (refused 400 (template_error why), sent)
          | ok message ↦
              notify to_lower pipe ctx r
                (single_chat cfg.default_chat_id default_chat_alias cfg.fallback_chat_id) message
                (resolve_grafana_status cfg.error_states webhook) sent
        ] in
        if is_empty webhook.alerts then (refused 400 no_alerts, sent) else answer
  ]
