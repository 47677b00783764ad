-- ===== src/Config/Secret.antt =====
-- References to secrets: `Resolve`, internal/secret/secret.go. The environment is `getenv`, and the
-- answer of Vault for an address, a token, a path and a key is `read_vault`.
use express_send.Common.{◌+◌, if◌then◌else◌, none, some, [], take, drop, Result, ok, err}
use express_send.Text.{Text, codes, eqb, index, cut_prefix}

module _ (getenv : Text → Text) (read_vault : Text → Text → Text → Text → Result Text Text) where
  unfoldable pub resolve_env : Text → Result Text Text
  unfolding eqb
  resolve_env var_name =
      let val = getenv var_name in
      if eqb val [] then err (codes "environment variable is empty or not set") else ok val

  unfoldable pub resolve_vault : Text → Result Text Text
  unfolding index eqb
  resolve_vault spec =
      let addr = getenv (codes "VAULT_ADDR") in
      let token = getenv (codes "VAULT_TOKEN") in
      elim (index spec (codes "#")) [
        | none ↦ err (codes "vault secret spec must be path#key")
        | some i ↦
            if eqb addr []
            then err (codes "VAULT_ADDR not set")
            else if eqb token []
            then err (codes "VAULT_TOKEN not set")
            else read_vault addr token (take i spec) (drop (i + 1) spec)
      ]

  unfoldable pub resolve : Text → Result Text Text
  unfolding resolve_env resolve_vault cut_prefix
  resolve secret = elim (cut_prefix secret (codes "env:")) [
    | some var_name ↦ resolve_env var_name
    | none ↦ elim (cut_prefix secret (codes "vault:")) [
      | some spec ↦ resolve_vault spec
      | none ↦ ok secret
    ]
  ]
