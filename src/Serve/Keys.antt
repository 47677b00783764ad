-- ===== src/Serve/Keys.antt =====
-- The API keys of the server: `resolveAPIKeys`, `resolveKeyScope`, `checkKeyCollisions` and the part
-- of `runServe` that joins them, internal/cmd/serve.go. `strings.ToLower` is the parameter `to_lower`.
pub mod Laws
use express_send.Common.{
  ◌≡◌, ◌&&◌, not, if◌then◌else◌, Option, none, some, List, [], ◌∷◌, ◌++◌, Result, ok, err, ◌>>=◌,
}
use express_send.Text.{Text, codes, eqb, lookup}
use express_send.Config.Types.{ConfigError}
use express_send.Config.Chats.{Chats, resolve_chat_ref}
use express_send.Server.Auth.{ResolvedKey}

-- `APIKeyConfig`; `none` stands for a nil list.
pub record ApiKeyConfig : Type 0 where
  pub name : Text
  pub key : Text
  pub chats : Option (List Text)

pub data KeyError : Type 0 where
  unresolved_key : Text → Text → KeyError
  empty_scope : Text → KeyError
  bad_scope : Text → ConfigError → KeyError
  same_value : Text → Text → KeyError

-- The loop over the chats of a key.
unfoldable pub resolve_scope :
    (Text → Text) → Chats → Text → List Text → Result KeyError (List Text)
unfolding resolve_chat_ref
resolve_scope to_lower chats name [] = ok []
resolve_scope to_lower chats name (c ∷ refs) =
    let rest = resolve_scope to_lower chats name refs in
    elim (resolve_chat_ref chats c) [
      | err why ↦ err (bad_scope name why)
      | ok (id, bot) ↦ rest >>= λ scope. ok (to_lower id ∷ scope)
    ]

unfoldable pub resolve_key_scope :
    (Text → Text) → Chats → ApiKeyConfig → Result KeyError (List Text)
unfolding resolve_scope
resolve_key_scope to_lower chats k = elim k.chats [
  | none ↦ ok []
  | some [] ↦ err (empty_scope k.name)
  | some (c ∷ refs) ↦ resolve_scope to_lower chats k.name (c ∷ refs)
]

-- The value of a secret, or the error that names its key.
unfoldable pub key_value : (Text → Result Text Text) → Text → Text → Result KeyError Text
key_value resolve name key = elim (resolve key) [
  | ok v ↦ ok v
  | err why ↦ err (unresolved_key name why)
]

-- The value and the scope of a configured key.
unfoldable pub resolve_api_key :
    (Text → Result Text Text)
    → (Text → Text)
    → Chats
    → ApiKeyConfig
    → Result KeyError (Text × ResolvedKey)
unfolding key_value resolve_key_scope
resolve_api_key resolve to_lower chats k = key_value resolve k.name k.key >>= λ v.
    resolve_key_scope to_lower chats k >>= λ scope. ok (v, record { name = k.name; chats = scope })

-- `resolveAPIKeys`.
unfoldable pub resolve_api_keys :
    (Text → Result Text Text)
    → (Text → Text)
    → Chats
    → List ApiKeyConfig
    → Result KeyError (List (Text × ResolvedKey))
unfolding resolve_api_key
resolve_api_keys resolve to_lower chats [] = ok []
resolve_api_keys resolve to_lower chats (k ∷ keys) =
    let rest = resolve_api_keys resolve to_lower chats keys in
    resolve_api_key resolve to_lower chats k >>= λ r. rest >>= λ rs. ok (r ∷ rs)

-- The loop of `checkKeyCollisions`, with the owner of each value seen before.
unfoldable pub check_collisions : List (Text × Text) → List (Text × ResolvedKey) → Option KeyError
unfolding lookup
check_collisions seen [] = none
check_collisions seen ((key, rk) ∷ keys) =
    let rest = check_collisions ((key, rk.name) ∷ seen) keys in
    elim (lookup key seen) [ some owner ↦ some (same_value owner rk.name) | none ↦ rest ]

unfoldable pub check_key_collisions : List (Text × ResolvedKey) → Option KeyError
unfolding check_collisions
check_key_collisions keys = check_collisions [] keys

-- A key of a flag or of the environment, without a scope; "" for a missing one.
unfoldable pub single_key :
    (Text → Result Text Text) → Text → Text → Result KeyError (List (Text × ResolvedKey))
unfolding key_value
single_key resolve name value =
    let resolved =
      key_value resolve name value >>= λ v. ok ((v, record { name = name; chats = [] }) ∷ []) in
    if not (eqb value []) then resolved else ok []

-- The keys that the server starts with.
unfoldable pub assemble_keys :
    (Text → Result Text Text)
    → (Text → Text)
    → Chats
    → List ApiKeyConfig
    → Text
    → Text
    → Result KeyError (List (Text × ResolvedKey))
unfolding resolve_api_keys single_key check_key_collisions
assemble_keys resolve to_lower chats configured api_key_flag api_key_env =
    resolve_api_keys resolve to_lower chats configured >>= λ keys.
    single_key resolve (codes "cli") api_key_flag >>= λ cli.
    single_key resolve (codes "env") api_key_env >>= λ env.
    let all = keys ++ (cli ++ env) in
    elim (check_key_collisions all) [ some why ↦ err why | none ↦ ok all ]
