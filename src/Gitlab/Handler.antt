-- ===== src/Gitlab/Handler.antt =====
-- The GitLab endpoint: `handleGitlab` and its parts, internal/server/handler_gitlab.go. A parsed
-- template is of the type `Template`; `execute` runs one, `decode` is `json.Decode` into an object.
pub mod Laws
pub mod Scope
use express_send.Common.{
  ℕ, Bool, true, false, ◌&&◌, not, if◌then◌else◌, Option, none, some, List, [], ◌∷◌, Result, ok,
  err,
}
use express_send.Text.{Text, codes, eqb, contains, lookup, is_some, has_suffix}
use express_send.Gitlab.Payload.{Fields, GitlabView, normalize_gitlab}
use express_send.Gitlab.Filter.{event_matches, passes_filter}
use express_send.Gitlab.Route.{CompiledRoute, evaluate_routes}
use express_send.Server.Types.{
  Context, ChatResult, Message, chat_empty, invalid_json, template_error, not_configured,
  invalid_token, outside_scope, bot_conflict, Response, refused, ignored,
}
use express_send.Server.MultiSend.{
  trim_space, parse_chat_ids, Pipeline, Sent, fanout_send, write_multi_send,
}
use express_send.Server.Auth.{is_empty}
use express_send.Server.Notify.{query_chats}

pub record GitlabTarget : Type 0 where
  pub target : Text
  pub bot : Text

-- `GitlabTarget.BotConflict`.
unfoldable pub conflicts : GitlabTarget → Text → Text → Bool
conflicts t ref ref_bot =
    not (eqb ref t.target) && not (eqb ref_bot []) && not (eqb t.bot []) && not (eqb ref_bot t.bot)

pub record GitlabTemplates (Template : Type 0) : Type 0 where
  pub by_key : List (Text × Template)
  pub def : Template

unfoldable pub select_template :
    {Template : Type 0} → GitlabTemplates Template → Text → Text → Template
unfolding lookup
select_template {Template} gt kind event_key = elim (lookup event_key gt.by_key) [
  | some t ↦ t
  | none ↦
      let by_kind : Template = elim (lookup kind gt.by_key) [ some t ↦ t | none ↦ gt.def ] in
      if not (eqb kind []) then by_kind else gt.def
]

pub record GitlabSender (Regexp Template : Type 0) : Type 0 where
  pub label : Text
  pub secret : Text
  pub scope : List (Text × GitlabTarget)
  pub targets : List Text
  pub only : List Text
  pub exclude : List Text
  pub error_events : List Text
  pub templates : GitlabTemplates Template
  pub routes : List (CompiledRoute Regexp)

module _ {Regexp Template : Type 0} where
  -- The loop of `resolveGitlabAuth`, with the sender matched so far.
  unfoldable pub match_senders :
      Text
      → Option (GitlabSender Regexp Template)
      → List (GitlabSender Regexp Template)
      → Option (GitlabSender Regexp Template)
  match_senders token matched [] = matched
  match_senders token matched (sender ∷ senders) =
      let hit = not (eqb sender.secret []) && eqb token sender.secret in
      match_senders token (if hit && not (is_some matched) then some sender else matched) senders

  unfoldable pub resolve_gitlab_auth :
      List (GitlabSender Regexp Template) → Text → Option (GitlabSender Regexp Template)
  unfolding match_senders
  resolve_gitlab_auth senders token =
      if eqb token [] then none else match_senders token none senders

-- The canonical id of a requested chat, and the bot bound to the reference.
unfoldable pub canonical_chat :
    (Text → Result Text ChatResult)
    → List (Text × GitlabTarget)
    → Text
    → Result Message (Text × Text)
unfolding lookup
canonical_chat chats scope raw =
    let resolved : Result Message (Text × Text) = elim (chats raw) [
      | err why ↦ err (outside_scope raw)
      | ok found ↦
          if eqb found.chat_id [] then err (outside_scope raw) else ok (found.chat_id, found.bot)
    ] in
    if is_some (lookup raw scope) then ok (raw, []) else resolved

-- The scope entry of a requested chat, with its canonical id.
unfoldable pub scope_entry :
    (Text → Result Text ChatResult)
    → List (Text × GitlabTarget)
    → Text
    → Result Message (Text × GitlabTarget)
unfolding canonical_chat conflicts
scope_entry chats scope raw = elim (canonical_chat chats scope raw) [
  | err why ↦ err why
  | ok (canonical, requested_bot) ↦ elim (lookup canonical scope) [
    | none ↦ err (outside_scope raw)
    | some entry ↦
        if conflicts entry raw requested_bot
        then err (bot_conflict raw requested_bot entry.target entry.bot)
        else ok (canonical, entry)
  ]
]

-- The loop of `senderScopeTargets`, with the canonical ids seen so far.
unfoldable pub scope_targets_from :
    (Text → Result Text ChatResult)
    → List (Text × GitlabTarget)
    → List Text
    → List Text
    → Result Message (List Text)
unfolding scope_entry
scope_targets_from chats scope seen [] = ok []
scope_targets_from chats scope seen (raw ∷ requested) = elim (scope_entry chats scope raw) [
  | err why ↦ err why
  | ok (canonical, entry) ↦
      let again = scope_targets_from chats scope seen requested in
      let added : Result Message (List Text) =
        elim (scope_targets_from chats scope (canonical ∷ seen) requested) [
          | err why ↦ err why
          | ok targets ↦ ok (entry.target ∷ targets)
        ] in
      if contains canonical seen then again else added
]

unfoldable pub sender_scope_targets :
    (Text → Result Text ChatResult)
    → List Text
    → List (Text × GitlabTarget)
    → Result Message (List Text)
unfolding scope_targets_from
sender_scope_targets chats requested scope = scope_targets_from chats scope [] requested

unfoldable pub gitlab_deliver :
    Pipeline → Context → Text → List Text → Text → Text → Sent → Response × Sent
unfolding fanout_send
gitlab_deliver pipe ctx request_bot targets message status sent =
    let out = fanout_send pipe ctx targets request_bot message status sent in
    (write_multi_send out.results out.errs 200, out.state)

-- The request of a webhook: the token, the body, and the value of ?chat_id where it is present.
pub record GitlabRequest : Type 0 where
  pub token : Text
  pub body : Text
  pub chat_id : Option Text

module _ {Regexp Template : Type 0} (match_string : Regexp → Text → Bool)
    (execute : Template → GitlabView → Result Text Text) (decode : Text → Result Text Fields)
    (pipe : Pipeline) (ctx : Context) where
  -- The last switch of the handler: where the message goes.
  unfoldable pub dispatch :
      GitlabSender Regexp Template → GitlabView → Option Text → Text → Text → Sent → Response × Sent
  unfolding gitlab_deliver sender_scope_targets evaluate_routes
  dispatch sender view chat_id message status sent =
      let query_targets = query_chats chat_id in
      let selected : Response × Sent =
        elim (sender_scope_targets pipe.chats query_targets sender.scope) [
          | err why ↦ (refused 403 why, sent)
          | ok targets ↦ gitlab_deliver pipe ctx [] targets message status sent
        ] in
      let routed = evaluate_routes match_string view sender.routes in
      if is_some chat_id && is_empty query_targets
      then (refused 400 chat_empty, sent)
      else if not (is_empty query_targets)
      then selected
      else if not (is_empty sender.routes)
      then if not routed.matched
        then (ignored view.event_key (codes "no route matched"), sent)
        else gitlab_deliver pipe ctx [] routed.chats message status sent
      else gitlab_deliver pipe ctx [] sender.targets message status sent

  -- The handler for the event of an authenticated sender.
  unfoldable pub handle_event :
      GitlabSender Regexp Template → GitlabView → Option Text → Sent → Response × Sent
  unfolding dispatch select_template passes_filter trim_space
  handle_event sender view chat_id sent =
      let rendered : Response × Sent =
        elim (execute (select_template sender.templates view.kind view.event_key) view) [
          | err why ↦ (refused 400 (template_error why), sent)
          | ok message ↦
              let status =
                if event_matches view.kind view.event_key sender.error_events
                then codes "error"
                else codes "ok" in
              if eqb (trim_space message) []
              then (ignored view.event_key (codes "empty message"), sent)
              else dispatch sender view chat_id message status sent
        ] in
      if not (passes_filter view.kind view.event_key sender.only sender.exclude)
      then (ignored view.event_key (codes "event filtered"), sent)
      else rendered

  unfoldable pub handle_gitlab :
      Option (List (GitlabSender Regexp Template)) → GitlabRequest → Sent → Response × Sent
  unfolding handle_event resolve_gitlab_auth normalize_gitlab
  handle_gitlab none r sent = (refused 500 not_configured, sent)
  handle_gitlab (some senders) r sent = elim (resolve_gitlab_auth senders r.token) [
    | none ↦ (refused 401 invalid_token, sent)
    | some sender ↦ elim (decode r.body) [
      | err why ↦ (refused 400 (invalid_json why), sent)
      | ok raw ↦ handle_event sender (normalize_gitlab raw) r.chat_id sent
    ]
  ]
