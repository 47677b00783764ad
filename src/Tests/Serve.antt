-- ===== src/Tests/Serve.antt =====
-- The theorems on the start of the server at concrete inputs.
use express_send.Common.{
  ℕ, Bool, true, false, Option, none, some, List, [], ◌∷◌, ◌++◌, ◌≡◌, refl, Result, ok, err, All,
}
use express_send.Text.{
  Text, codes, eqb, lookup, cut_prefix, cut_suffix, has_prefix, has_suffix, map_set, split,
}
use express_send.Text.Query.{is_hex, is_alnum}
use express_send.Text.Sort.{text_leb, insert_key, sort_keys}
use express_send.Server.Types.{Context, hex_run, uuid_groups, is_uuid}
use express_send.Server.MultiSend.{Pipeline}
use express_send.Server.Auth.{ResolvedKey, build_key_map}
use express_send.Config.Chats.{Chats, resolve_chat_ref, sorted_map_keys}
use express_send.Config.Gitlab.{
  GitlabSenderConfig, all_word, valid_gitlab_event_key, check_senders, validate_gitlab_senders,
  check_keys, check_overlap, gitlab_catch_all_kind, check_catch_all, gitlab_route_pattern_error,
  check_patterns, check_selectors, validate_gitlab_routes, validate_gitlab_sender, first_problem,
  validate_for_serve,
}
use express_send.Gitlab.Payload.{Fields, end, GitlabView}
use express_send.Gitlab.Route.Compile.{
  is_slashed, compile_pattern, compile_patterns, compile_cond, compile_conds, compile_from,
  compile_gitlab_routes,
}
use express_send.Gitlab.Handler.{
  GitlabSender, GitlabRequest, conflicts, match_senders, resolve_gitlab_auth, handle_gitlab,
}
use express_send.Gitlab.Handler.Scope.{Addressed}
use express_send.Serve.Keys.{
  ApiKeyConfig, resolve_scope, resolve_key_scope, key_value, resolve_api_key, resolve_api_keys,
  check_collisions, check_key_collisions, single_key, assemble_keys,
}
use express_send.Serve.Keys.Laws.{InMap, assemble_keys-InMap}
use express_send.Serve.Sender.{
  add_target, add_targets, add_routes, rewrite_chats, rewrite_routes, build_scope, overlay_files,
  resolve_sender_secret, compile_routes, build_gitlab_sender, build_senders, build_gitlab_config,
}
use express_send.Serve.Sender.Templates.{
  canon_gitlab_template_key, check_slots, merge, parse_all, parse_gitlab_templates,
}
use express_send.Serve.Sender.Built.{
  Built, build_gitlab_config-authenticates, build_gitlab_config-Addressed,
}

abbrev list_of {ℓ κ} : {E : Type ℓ} {A : Type κ} → Result E (List A) → List A
list_of (ok xs) = xs
list_of (err e) = []

abbrev ops_chats : Chats
ops_chats = (codes "ops", record { id = codes "c1"; bot = codes "main"; default = false }) ∷ []

abbrev literal : Text → Result Text Text
literal s = ok s

abbrev same : Text → Text
same s = s

abbrev ops_key : ApiKeyConfig
ops_key = record { name = codes "ops key"; key = codes "k1"; chats = some (codes "ops" ∷ []) }

abbrev keys : List (Text × ResolvedKey)
keys = list_of (assemble_keys literal same ops_chats (ops_key ∷ []) (codes "k2") [])

assemble_keys-InMap_example :
    All (InMap literal same ops_chats (build_key_map same [] keys)) (ops_key ∷ [])
unfolding eqb lookup is_hex hex_run uuid_groups is_uuid resolve_chat_ref resolve_scope
    resolve_key_scope key_value resolve_api_key resolve_api_keys check_collisions
    check_key_collisions single_key assemble_keys
assemble_keys-InMap_example =
    assemble_keys-InMap literal same ops_chats (ops_key ∷ []) (codes "k2") [] keys refl

abbrev compile_none : Text → Option Text
compile_none s = none

abbrev same_text : Text → Text → Bool
same_text re v = eqb re v

abbrev parse_text : Text → Text → Result Text Text
parse_text key t = ok t

abbrev defaults : List (Text × Text)
defaults = (codes "default", codes "event") ∷ (codes "push", codes "pushed") ∷ []

-- A sender with its own chat and a rule for it.
abbrev ops_sender : GitlabSenderConfig
ops_sender = record {
  name = codes "ops";
  secret = codes "s1";
  chats = codes "ops" ∷ [];
  only = codes "push" ∷ [];
  exclude = [];
  error_events = [];
  templates = (codes "push.*", codes "new push") ∷ [];
  template_files = [];
  routes =
      record {
        match = (codes "user", codes "k*" ∷ []) ∷ [];
        chats = codes "ops" ∷ [];
        stop = false;
      }
      ∷ [];
}

-- A sender whose chats are those of its rules.
abbrev routed_sender : GitlabSenderConfig
routed_sender = record ops_sender { name = codes "routed"; secret = codes "s2"; chats = [] }

abbrev label_of : ℕ → Text → Text
label_of i name = name

abbrev senders : List (GitlabSender Text Text)
senders = list_of (
    build_gitlab_config compile_none parse_text defaults literal literal ops_chats true label_of
      (ops_sender ∷ routed_sender ∷ []))

senders_built :
    build_gitlab_config compile_none parse_text defaults literal literal ops_chats true label_of
      (ops_sender ∷ routed_sender ∷ [])
    ≡ ok senders
unfolding eqb lookup is_hex hex_run uuid_groups is_uuid resolve_chat_ref sorted_map_keys sort_keys
    insert_key text_leb cut_prefix cut_suffix has_prefix has_suffix map_set split is_alnum all_word
    valid_gitlab_event_key check_senders validate_gitlab_senders check_keys check_overlap
    gitlab_catch_all_kind check_catch_all gitlab_route_pattern_error check_patterns check_selectors
    validate_gitlab_routes validate_gitlab_sender first_problem validate_for_serve is_slashed
    compile_pattern compile_patterns compile_cond compile_conds compile_from compile_gitlab_routes
    conflicts add_target add_targets add_routes rewrite_chats rewrite_routes build_scope
    overlay_files resolve_sender_secret compile_routes build_gitlab_sender build_senders
    build_gitlab_config canon_gitlab_template_key check_slots merge parse_all parse_gitlab_templates
senders_built = refl

build_gitlab_config-authenticates_example :
    All
      (λ s.
        (resolve_gitlab_auth senders s.secret ≡ some s)
        × Built compile_none parse_text defaults literal literal ops_chats true s)
      senders
build_gitlab_config-authenticates_example =
    build_gitlab_config-authenticates compile_none parse_text defaults literal literal ops_chats
      true label_of (ops_sender ∷ routed_sender ∷ []) senders senders_built

abbrev last_of {ℓ} : {A : Type ℓ} → A → List A → A
last_of d [] = d
last_of d (x ∷ xs) = last_of x xs

abbrev nobody : GitlabSender Text Text
nobody = record {
  label = [];
  secret = [];
  scope = [];
  targets = [];
  only = [];
  exclude = [];
  error_events = [];
  templates = record { by_key = []; def = [] };
  routes = [];
}

abbrev routed : GitlabSender Text Text
routed = last_of nobody senders

abbrev pipe : Pipeline
pipe = record {
  bots = record { bot_names = codes "main" ∷ []; single_bot_name = codes "main" };
  chats = λ t. ok (record { chat_id = codes "c1"; bot = codes "main" });
  send = λ sent p. ok (codes "sync-1");
}

abbrev anybody : Context
anybody = record { key_name = []; auth_bot = []; key_scope = [] }

abbrev message_of : Text → GitlabView → Result Text Text
message_of t view = ok (codes "event " ++ view.event_key)

abbrev no_fields : Text → Result Text Fields
no_fields body = ok end

abbrev request : GitlabRequest
request = record { token = codes "s2"; body = codes "{}"; chat_id = some (codes "ops") }

let_in : resolve_gitlab_auth senders (codes "s2") ≡ some routed
unfolding eqb lookup is_hex hex_run uuid_groups is_uuid resolve_chat_ref sorted_map_keys sort_keys
    insert_key text_leb cut_prefix cut_suffix has_prefix has_suffix map_set split is_alnum all_word
    valid_gitlab_event_key check_senders validate_gitlab_senders check_keys check_overlap
    gitlab_catch_all_kind check_catch_all gitlab_route_pattern_error check_patterns check_selectors
    validate_gitlab_routes validate_gitlab_sender first_problem validate_for_serve is_slashed
    compile_pattern compile_patterns compile_cond compile_conds compile_from compile_gitlab_routes
    conflicts add_target add_targets add_routes rewrite_chats rewrite_routes build_scope
    overlay_files resolve_sender_secret compile_routes build_gitlab_sender build_senders
    build_gitlab_config canon_gitlab_template_key check_slots merge parse_all parse_gitlab_templates
    match_senders resolve_gitlab_auth
let_in = refl

build_gitlab_config-Addressed_example :
    All
      (Addressed pipe.chats routed.scope)
      (handle_gitlab same_text message_of no_fields pipe anybody (some senders) request []).1
build_gitlab_config-Addressed_example =
    build_gitlab_config-Addressed compile_none parse_text defaults literal literal ops_chats true
      same_text message_of no_fields pipe anybody label_of (ops_sender ∷ routed_sender ∷ []) senders
      request routed senders_built let_in
