-- ===== src/Serve/Sender.antt =====
-- The senders of the GitLab webhook: `buildGitlabConfig` and `buildGitlabSender` of
-- internal/cmd/serve.go, and `ParseGitlabTemplates` of internal/server/handler_gitlab.go. The
-- built-in templates are the argument `defaults`, `template.Parse` is `parse`, and the file of a
-- template, with its path made absolute, is read by `read`.
pub mod Templates
pub mod Laws
pub mod Built
use express_send.Common.{
  ℕ, suc, Bool, true, false, ◌&&◌, not, if◌then◌else◌, Option, none, some, List, [], ◌∷◌, ◌++◌,
  Result, ok, err, ◌>>=◌,
}
use express_send.Text.{Text, eqb, lookup, map_set, is_some}
use express_send.Config.Types.{ConfigError}
use express_send.Config.Chats.{Chats, resolve_chat_ref}
use express_send.Config.Gitlab.{GitlabSenderConfig, GitlabProblem, validate_for_serve}
use express_send.Server.Types.{is_uuid}
use express_send.Server.Auth.{is_empty}
use express_send.Gitlab.Route.{CompiledRoute}
use express_send.Gitlab.Route.Compile.{GitlabRoute, RouteError, compile_gitlab_routes}
use express_send.Gitlab.Handler.{GitlabTarget, conflicts, GitlabSender}
use express_send.Serve.Sender.Templates.{TemplateError, parse_gitlab_templates}

-- Why a sender cannot be built.
pub data SenderError : Type 0 where
  invalid : GitlabProblem → SenderError
  bad_chat : ConfigError → SenderError
  raw_uuid unbound_alias : Text → SenderError
  same_chat : Text → Text → Text → SenderError
  outside_sender : Text → SenderError
  other_binding : Text → Text → Text → Text → SenderError
  unreadable_template : Text → Text → SenderError
  bad_template : TemplateError → SenderError
  bad_route : RouteError → SenderError
  unresolved_secret : Text → SenderError
  empty_secret : SenderError
  duplicate_secret : Text → Text → SenderError

-- What `addTarget` updates: the scope and the delivery targets.
pub record Targets : Type 0 where
  pub scope : List (Text × GitlabTarget)
  pub targets : List Text

module _ (chats : Chats) (multi_bot : Bool) where
  unfoldable pub add_target : Targets → Text → Result SenderError Targets
  unfolding resolve_chat_ref is_uuid lookup
  add_target t raw = elim (resolve_chat_ref chats raw) [
    | err why ↦ err (bad_chat why)
    | ok (canonical, bot) ↦
        let placed : Result SenderError Targets = elim (lookup canonical t.scope) [
          | some previous ↦
              if not (eqb previous.target raw)
              then err (same_chat previous.target raw canonical)
              else ok t
          | none ↦ ok (record {
            scope = (canonical, record { target = raw; bot = bot }) ∷ t.scope;
            targets = t.targets ++ raw ∷ [];
          })
        ] in
        if multi_bot && is_uuid raw
        then err (raw_uuid raw)
        else if multi_bot && eqb bot []
        then err (unbound_alias raw)
        else placed
  ]

  unfoldable pub add_targets : Targets → List Text → Result SenderError Targets
  unfolding add_target
  add_targets t [] = ok t
  add_targets t (raw ∷ raws) = add_target t raw >>= λ t'. add_targets t' raws

  -- The chats of the rules, where the sender lists none itself.
  unfoldable pub add_routes : Targets → List GitlabRoute → Result SenderError Targets
  unfolding add_targets
  add_routes t [] = ok t
  add_routes t (r ∷ routes) = add_targets t r.chats >>= λ t'. add_routes t' routes

  -- The chats of a rule, each replaced by the delivery target of its chat.
  unfoldable pub rewrite_chats :
      List (Text × GitlabTarget) → List Text → Result SenderError (List Text)
  unfolding resolve_chat_ref lookup conflicts
  rewrite_chats scope [] = ok []
  rewrite_chats scope (raw ∷ raws) =
      let rest = rewrite_chats scope raws in
      elim (resolve_chat_ref chats raw) [
        | err why ↦ err (bad_chat why)
        | ok (canonical, route_bot) ↦ elim (lookup canonical scope) [
          | none ↦ err (outside_sender raw)
          | some entry ↦
              if conflicts entry raw route_bot
              then err (other_binding raw route_bot entry.target entry.bot)
              else (rest >>= λ targets. ok (entry.target ∷ targets))
        ]
      ]

  unfoldable pub rewrite_routes :
      List (Text × GitlabTarget) → List GitlabRoute → Result SenderError (List GitlabRoute)
  unfolding rewrite_chats
  rewrite_routes scope [] = ok []
  rewrite_routes scope (r ∷ routes) =
      let rest = rewrite_routes scope routes in
      rewrite_chats scope r.chats >>= λ targets.
      rest >>= λ rs. ok (record r { chats = targets } ∷ rs)

  -- The scope, the targets and the rules of a sender.
  unfoldable pub build_scope : GitlabSenderConfig → Result SenderError (Targets × List GitlabRoute)
  unfolding add_targets add_routes rewrite_routes
  build_scope sn =
      let empty : Targets = record { scope = []; targets = [] } in
      let own = add_targets empty sn.chats >>= λ t.
      rewrite_routes t.scope sn.routes >>= λ routes. ok (t, routes) in
      let of_routes = add_routes empty sn.routes >>= λ t. ok (t, sn.routes) in
      if not (is_empty sn.chats) then own else of_routes

-- The loop over the template files.
unfoldable pub overlay_files :
    (Text → Result Text Text)
    → List (Text × Text)
    → List (Text × Text)
    → Result SenderError (List (Text × Text))
unfolding map_set
overlay_files read inline [] = ok inline
overlay_files read inline ((key, path) ∷ files) = elim (read path) [
  | err why ↦ err (unreadable_template path why)
  | ok content ↦ overlay_files read (map_set key content inline) files
]

unfoldable pub resolve_sender_secret : (Text → Result Text Text) → Text → Result SenderError Text
resolve_sender_secret resolve secret = elim (resolve secret) [
  | err why ↦ err (unresolved_secret why)
  | ok s ↦ if eqb s [] then err empty_secret else ok s
]

module _ {Regexp Template : Type 0} (compile_regexp : Text → Option Regexp)
    (parse : Text → Text → Result Text Template) (defaults : List (Text × Text))
    (resolve read : Text → Result Text Text) (chats : Chats) (multi_bot : Bool) where
  unfoldable pub compile_routes :
      List GitlabRoute → Result SenderError (List (CompiledRoute Regexp))
  unfolding compile_gitlab_routes
  compile_routes routes = elim (compile_gitlab_routes compile_regexp routes) [
    | ok rs ↦ ok rs
    | err why ↦ err (bad_route why)
  ]

  unfoldable pub build_gitlab_sender :
      GitlabSenderConfig → Text → Result SenderError (GitlabSender Regexp Template)
  unfolding build_scope overlay_files parse_gitlab_templates compile_routes resolve_sender_secret
  build_gitlab_sender sn label = build_scope chats multi_bot sn >>= λ built.
      overlay_files read sn.templates sn.template_files >>= λ inline.
      elim (parse_gitlab_templates parse defaults inline) [
        | err why ↦ err (bad_template why)
        | ok templates ↦ compile_routes built.1 >>= λ routes.
            resolve_sender_secret resolve sn.secret >>= λ secret. ok (record {
              label = label;
              secret = secret;
              scope = built.0.scope;
              targets = built.0.targets;
              only = sn.only;
              exclude = sn.exclude;
              error_events = sn.error_events;
              templates = templates;
              routes = routes;
            })
      ]

  -- The loop of `buildGitlabConfig` from sender `i` on, with the label of each secret seen before.
  unfoldable pub build_senders :
      (ℕ → Text → Text)
      → ℕ
      → List (Text × Text)
      → List GitlabSenderConfig
      → Result SenderError (List (GitlabSender Regexp Template))
  unfolding build_gitlab_sender lookup
  build_senders label i seen [] = ok []
  build_senders label i seen (sn ∷ senders) =
      let name = label i sn.name in
      build_gitlab_sender sn name >>= λ sender. elim (lookup sender.secret seen) [
        | some owner ↦ err (duplicate_secret name owner)
        | none ↦ build_senders label (suc i) ((sender.secret, name) ∷ seen) senders >>= λ rest.
            ok (sender ∷ rest)
      ]

  unfoldable pub build_gitlab_config :
      (ℕ → Text → Text)
      → List GitlabSenderConfig
      → Result SenderError (List (GitlabSender Regexp Template))
  unfolding validate_for_serve build_senders
  build_gitlab_config label senders = elim (validate_for_serve compile_regexp senders) [
    | some p ↦ err (invalid p)
    | none ↦ build_senders label 0 [] senders
  ]
