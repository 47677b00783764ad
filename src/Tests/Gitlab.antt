-- ===== src/Tests/Gitlab.antt =====
-- The theorems on GitLab webhooks at concrete inputs.
use express_send.Common.{
  Bool, true, false, if◌then◌else◌, Option, none, some, List, [], ◌∷◌, ◌++◌, ◌≡◌, ◌≢◌, ◌↔◌, refl,
  Result, ok, err, All,
}
use express_send.Text.{Text, codes, eqb, contains, lookup}
use express_send.Text.Laws.{eqb_iff}
use express_send.Gitlab.Payload.{Fields, end, GitlabView}
use express_send.Gitlab.Filter.{event_matches, passes_filter}
use express_send.Gitlab.Glob.{glob_match}
use express_send.Gitlab.Glob.Relation.{Matches, glob_match_iff}
use express_send.Gitlab.Route.{glob, on_event, on_value, CompiledRoute, evaluate_routes}
use express_send.Gitlab.Route.Evaluate.{Targets, evaluate_routes_iff}
use express_send.Text.Sort.{insert_key, sort_keys}
use express_send.Gitlab.Route.Compile.{
  GitlabRoute, is_slashed, compile_pattern, compile_patterns, compile_cond, compile_conds,
  compile_from, compile_gitlab_routes,
}
use express_send.Gitlab.Route.Compile.Meaning.{ImplementsAll, compile_gitlab_routes-ImplementsAll}
use express_send.Server.Types.{Context, ChatResult}
use express_send.Server.MultiSend.{Pipeline}
use express_send.Gitlab.Handler.{
  GitlabTarget, GitlabSender, GitlabRequest, conflicts, resolve_gitlab_auth, sender_scope_targets,
  scope_targets_from, scope_entry, canonical_chat,
}
use express_send.Gitlab.Handler.Laws.{
  FirstWith, here, later, resolve_gitlab_auth_iff, IsScopeTarget, Covered,
  sender_scope_targets-Covered,
}
use express_send.Gitlab.Handler.Scope.{Consistent}

glob_match_iff_example :
    (glob_match (codes "release/*") (codes "release/1.2") ≡ true)
    ↔ Matches (codes "release/*") (codes "release/1.2")
glob_match_iff_example = glob_match_iff (codes "release/*") (codes "release/1.2")

abbrev push : GitlabView
push = record {
  kind = codes "push";
  action = [];
  event_key = codes "push";
  project = codes "group/app";
  user = codes "kim";
  title = [];
  url = [];
  raw = end;
}

-- An expression that matches itself only; the empty one is malformed.
abbrev same_text : Text → Text → Bool
same_text re v = eqb re v

abbrev compile_text : Text → Option Text
compile_text [] = none
compile_text (c ∷ s) = some (c ∷ s)

abbrev routes : List GitlabRoute
routes =
    record {
      match = (codes "user", codes "k*" ∷ []) ∷ [];
      chats = codes "ops" ∷ codes "dev" ∷ [];
      stop = false;
    }
    ∷ record {
      match = (codes "event", codes "push" ∷ []) ∷ [];
      chats = codes "dev" ∷ [];
      stop = true;
    }
    ∷ []

abbrev compiled : List (CompiledRoute Text)
compiled =
    record {
      conds = on_value (codes "user") (glob (codes "k*") ∷ []) ∷ [];
      chats = codes "ops" ∷ codes "dev" ∷ [];
      stop = false;
    }
    ∷ record { conds = on_event (codes "push" ∷ []) ∷ []; chats = codes "dev" ∷ []; stop = true }
    ∷ []

routes_compile : compile_gitlab_routes compile_text routes ≡ ok compiled
unfolding compile_gitlab_routes compile_from compile_conds compile_cond compile_patterns
    compile_pattern is_slashed sort_keys insert_key eqb
routes_compile = refl

compile_gitlab_routes-ImplementsAll_example : ImplementsAll compile_text same_text routes compiled
compile_gitlab_routes-ImplementsAll_example =
    compile_gitlab_routes-ImplementsAll compile_text same_text routes compiled routes_compile

evaluate_routes_iff_example :
    (contains (codes "dev") (evaluate_routes same_text push compiled).chats ≡ true)
    ↔ Targets same_text push compiled (codes "dev")
evaluate_routes_iff_example = evaluate_routes_iff same_text push compiled (codes "dev")

abbrev ops_id : Text
ops_id = codes "11111111-1111-1111-1111-111111111111"

abbrev chats_of : Text → Result Text ChatResult
chats_of t =
    if eqb t (codes "ops")
    then ok (record { chat_id = ops_id; bot = [] })
    else err (codes "unknown chat")

abbrev pipe : Pipeline
pipe = record {
  bots = record { bot_names = codes "main" ∷ []; single_bot_name = codes "main" };
  chats = chats_of;
  send = λ sent p. ok (codes "sync-1");
}

abbrev anybody : Context
anybody = record { key_name = []; auth_bot = []; key_scope = [] }

abbrev ops_scope : List (Text × GitlabTarget)
ops_scope = (ops_id, record { target = codes "ops"; bot = [] }) ∷ []

abbrev sender_with : Text → GitlabSender Text Text
sender_with secret = record {
  label = codes "ci";
  secret = secret;
  scope = ops_scope;
  targets = codes "ops" ∷ [];
  only = [];
  exclude = codes "issue" ∷ [];
  error_events = [];
  templates = record { by_key = []; def = codes "t" };
  routes = [];
}

abbrev senders : List (GitlabSender Text Text)
senders = sender_with (codes "s1") ∷ sender_with (codes "s2") ∷ []

resolve_gitlab_auth_iff_example :
    (resolve_gitlab_auth senders (codes "s2") ≡ some (sender_with (codes "s2")))
    ↔ ((codes "s2" ≢ []) × FirstWith (codes "s2") senders (sender_with (codes "s2")))
resolve_gitlab_auth_iff_example =
    resolve_gitlab_auth_iff senders (codes "s2") (sender_with (codes "s2"))

ops_selected :
    sender_scope_targets chats_of (codes "ops" ∷ ops_id ∷ []) ops_scope ≡ ok (codes "ops" ∷ [])
unfolding sender_scope_targets scope_targets_from scope_entry canonical_chat conflicts lookup eqb
    contains
ops_selected = refl

sender_scope_targets-Covered_example :
    All (Covered chats_of ops_scope [] (codes "ops" ∷ [])) (codes "ops" ∷ ops_id ∷ [])
    × All (IsScopeTarget ops_scope) (codes "ops" ∷ [])
sender_scope_targets-Covered_example =
    sender_scope_targets-Covered chats_of ops_scope (codes "ops" ∷ ops_id ∷ []) (codes "ops" ∷ [])
      ops_selected

abbrev message_of : Text → GitlabView → Result Text Text
message_of t view = ok (codes "event " ++ view.event_key)

abbrev no_fields : Text → Result Text Fields
no_fields body = ok end

abbrev request : Text → GitlabRequest
request token = record { token = token; body = codes "{}"; chat_id = some (codes "ops") }

token_nonempty : codes "s2" ≢ []
token_nonempty e = cc

different : (s t : Text) → eqb s t ≡ false → s ≢ t
different s t h e = let same = (eqb_iff s t).1 e in cc

second : FirstWith (codes "s2") senders (sender_with (codes "s2"))
unfolding eqb
second = later (different (codes "s1") (codes "s2") refl) (here refl)

consistent : Consistent (sender_with (codes "s2"))
unfolding lookup eqb
consistent = record {
  targets_in = ((ops_id, record { target = codes "ops"; bot = [] }, refl, refl), tt);
  routes_in = tt;
}

abbrev issue : GitlabView
issue = record push { kind = codes "issue"; event_key = codes "issue" }

issue_dropped : passes_filter (codes "issue") (codes "issue") [] (codes "issue" ∷ []) ≡ false
unfolding passes_filter event_matches eqb
issue_dropped = refl
