-- ===== src/Server/Auth.antt =====
-- Authentication and chat scopes: internal/server/auth.go, and the key map of
-- internal/server/server.go. `strings.ToLower` is the parameter `to_lower`.
pub mod Laws
pub mod Hiding
use express_send.Common.{
  ℕ, Bool, true, false, ◌&&◌, not, if◌then◌else◌, Option, none, some, List, [], ◌∷◌, map, Result,
  ok, err,
}
use express_send.Text.{Text, codes, eqb, contains, lookup, has_prefix, cut_prefix}
use express_send.Server.Types.{
  Context, ChatResult, SendError, chat_not_allowed, Message, text, unauthorized, forbidden,
  not_allowed, Response, refused, is_uuid,
}

-- The headers that authenticate a request; "" for a missing one.
pub record Credentials : Type 0 where
  pub authorization : Text
  pub x_api_key : Text
  pub x_bot_signature : Text

pub record ResolvedKey : Type 0 where
  pub name : Text
  pub chats : List Text

pub record AuthConfig : Type 0 where
  pub key_map : List (Text × ResolvedKey)
  pub allow_bot_secret_auth : Bool
  pub bot_signatures : List (Text × Text)

-- The loop of `New` over the configured keys: scopes in lower case, a later key replaces an
-- earlier one.
unfoldable pub build_key_map :
    (Text → Text)
    → List (Text × ResolvedKey)
    → List (Text × ResolvedKey)
    → List (Text × ResolvedKey)
build_key_map to_lower keys [] = keys
build_key_map to_lower keys ((key, rk) ∷ more) =
    build_key_map to_lower ((key, record { name = rk.name; chats = map to_lower rk.chats }) ∷ keys)
      more

unfoldable pub extract_key : Credentials → Text
unfolding cut_prefix
extract_key r = elim (cut_prefix r.authorization (codes "Bearer ")) [
  | some key ↦ key
  | none ↦ r.x_api_key
]

-- The loop over the signatures of the bots.
unfoldable pub find_signature : Text → List (Text × Text) → Option Text
find_signature sig [] = none
find_signature sig ((expected, bot) ∷ more) =
    if eqb sig expected then some bot else find_signature sig more

abbrev key_context : ResolvedKey → Context
key_context rk = record { key_name = rk.name; auth_bot = []; key_scope = rk.chats }

abbrev bot_context : Text → Context
bot_context bot = record { key_name = codes "bot_secret"; auth_bot = bot; key_scope = [] }

-- The key of a request in the key map.
unfoldable pub match_key : AuthConfig → Text → Option ResolvedKey
unfolding lookup
match_key cfg key = if eqb key [] then none else lookup key cfg.key_map

-- The bot of a signature, where this way in is open.
unfoldable pub match_signature : AuthConfig → Text → Option Text
unfolding find_signature
match_signature cfg sig =
    if cfg.allow_bot_secret_auth && not (eqb sig [])
    then find_signature sig cfg.bot_signatures
    else none

-- The request goes on with its context, or is refused.
unfoldable pub auth_middleware : AuthConfig → Credentials → Result Response Context
unfolding extract_key match_key match_signature
auth_middleware cfg r = elim (match_key cfg (extract_key r)) [
  | some rk ↦ ok (key_context rk)
  | none ↦ elim (match_signature cfg r.x_bot_signature) [
    | some bot ↦ ok (bot_context bot)
    | none ↦
        if eqb (extract_key r) [] && eqb r.x_bot_signature []
        then err (refused 401 unauthorized)
        else err (refused 403 forbidden)
  ]
]

abbrev pub is_empty {ℓ} : {A : Type ℓ} → List A → Bool
is_empty [] = true
is_empty (_ ∷ _) = false

abbrev pub scoped : Context → Bool
scoped ctx = not (is_empty ctx.key_scope)

module _ (to_lower : Text → Text) where
  unfoldable pub chat_allowed : Context → Text → Bool
  chat_allowed ctx resolved_uuid =
      if is_empty ctx.key_scope then true else contains (to_lower resolved_uuid) ctx.key_scope

  -- `denyChat`.
  unfoldable pub deny_chat : Context → Text → Response
  deny_chat ctx why = if scoped ctx then refused 403 not_allowed else refused 400 (text why)

  -- The loop of `authorizeTargets`; `none` lets the request go on.
  unfoldable pub check_targets :
      (Text → Result Text ChatResult) → Context → Bool → List Text → Option Response
  unfolding chat_allowed deny_chat
  check_targets chats ctx resolve [] = none
  check_targets chats ctx false (target ∷ targets) =
      if is_uuid target && not (chat_allowed ctx target)
      then some (refused 403 not_allowed)
      else check_targets chats ctx false targets
  check_targets chats ctx true (target ∷ targets) =
      let rest = check_targets chats ctx true targets in
      elim (chats target) [
        | err why ↦ some (deny_chat ctx why)
        | ok chat ↦
            if not (chat_allowed ctx chat.chat_id) then some (refused 403 not_allowed) else rest
      ]

  unfoldable pub authorize_targets :
      (Text → Result Text ChatResult) → Context → List Text → Bool → Option Response
  unfolding check_targets
  authorize_targets chats ctx targets resolve =
      if not (scoped ctx) then none else check_targets chats ctx resolve targets

-- The loop of `sanitizeErrors`.
unfoldable pub hide_errors : List SendError → List SendError
hide_errors [] = []
hide_errors (e ∷ errs) = record { chat = e.chat; error = chat_not_allowed } ∷ hide_errors errs

unfoldable pub sanitize_errors : Context → List SendError → List SendError
unfolding hide_errors
sanitize_errors ctx errs = if not (scoped ctx) then errs else hide_errors errs
