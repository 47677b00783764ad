-- ===== src/Server/Notify/Hiding.antt =====
-- What the responses tell a scoped caller of failures.
use express_send.Common.{
  ◌≡◌, err, subst, true, Option, none, some, List, [], ◌≢◌, inl, inr, Bool-cases, Option-cases,
  Result-cases,
}
use express_send.Text.{Text, eqb, is_some}
use express_send.Server.Types.{Context, Message, chat_empty, chat_required}
use express_send.Server.MultiSend.{Pipeline, Sent, fanout_send}
use express_send.Server.Auth.{is_empty, authorize_targets}
use express_send.Server.Notify.{
  WebhookRequest, AlertmanagerConfig, send_authorized, choose_targets, query_chats, notify,
  handle_alertmanager,
}
use express_send.Server.Auth.Hiding.{
  IsQuiet, Hides, authorize_targets-Hides, write_multi_send-Hides,
}

choose_targets-IsQuiet :
    (chat_id : Option Text) (single : Text) (why : Message)
    → choose_targets chat_id single ≡ err why
    → IsQuiet why
unfolding choose_targets
choose_targets-IsQuiet chat_id single why h = elim (Bool-cases (is_empty (query_chats chat_id))) [
  | inl bare ↦ elim (Bool-cases (is_some chat_id)) [
    | inl given ↦
        let bad = rw (bare, given, choose_targets) at h in
        let same : chat_empty ≡ why = cc in subst IsQuiet same tt
    | inr missing ↦ elim (Bool-cases (eqb single [])) [
      | inl e ↦
          let bad = rw (bare, missing, e, choose_targets) at h in
          let same : chat_required ≡ why = cc in subst IsQuiet same tt
      | inr e ↦ absurd (let bad = rw (bare, missing, e, choose_targets) at h in cc)
    ]
  ]
  | inr some_ ↦ absurd (let bad = rw (some_, choose_targets) at h in cc)
]

module _ (to_lower : Text → Text) (pipe : Pipeline) (ctx : Context) where
  send_authorized-Hides :
      (targets : List Text) (bot message status : Text) (sent : Sent)
      → ctx.key_scope ≢ []
      → Hides (send_authorized to_lower pipe ctx targets bot message status sent).0
  unfolding send_authorized
  send_authorized-Hides targets bot message status sent ne =
      elim (Option-cases (authorize_targets to_lower pipe.chats ctx targets true)) [
        | inr (response, e) ↦
            rw (e, send_authorized)
              (authorize_targets-Hides to_lower pipe.chats ctx true targets response ne e)
        | inl e ↦
            let out = fanout_send pipe ctx targets bot message status sent in
            rw (e, send_authorized) (write_multi_send-Hides ctx out.results out.errs 200 ne)
      ]

  notify-Hides :
      (r : WebhookRequest) (single message status : Text) (sent : Sent)
      → ctx.key_scope ≢ []
      → Hides (notify to_lower pipe ctx r single message status sent).0
  unfolding notify
  notify-Hides r single message status sent ne =
      elim (Result-cases (choose_targets r.chat_id single)) [
        | inl (targets, e) ↦
            rw (e, notify) (send_authorized-Hides targets r.bot message status sent ne)
        | inr (why, e) ↦ rw (e, notify) (choose_targets-IsQuiet r.chat_id single why e)
      ]

  -- With a scoped key, the response to an Alertmanager webhook tells of a failed delivery only the
  -- name of its chat, and no refusal quotes an error of the chat resolver.
  pub handle_alertmanager-Hides :
      (alias : Text) (cfg : Option AlertmanagerConfig) (r : WebhookRequest) (sent : Sent)
      → ctx.key_scope ≢ []
      → Hides (handle_alertmanager to_lower pipe ctx alias cfg r sent).0
  unfolding handle_alertmanager
  handle_alertmanager-Hides alias none r sent ne = tt
  handle_alertmanager-Hides alias (some cfg) r sent ne = elim (Result-cases (cfg.decode r.body)) [
    | inr (why, e) ↦ rw (e, handle_alertmanager) tt
    | inl (webhook, e) ↦ elim (Bool-cases (is_empty webhook.alerts)) [
      | inl none_ ↦ rw (e, none_, handle_alertmanager) tt
      | inr some_ ↦ elim (Result-cases (cfg.execute webhook)) [
        | inr (why, e') ↦ rw (e, some_, e', handle_alertmanager) tt
        | inl (message, e') ↦
            rw (e, some_, e', handle_alertmanager) (notify-Hides r _ message _ sent ne)
      ]
    ]
  ]
