-- ===== src/Serve/Keys/Laws.antt =====
-- A key keeps its scope from the configuration to the key map.
use express_send.Common.{
  ◌≡◌, ◌≢◌, refl, sym, ap, ◌∙◌, subst, inl, inr, Bool-cases, Option-cases, Result-cases, >>=-eq-ok,
  ok-injective, true, none, some, List, [], ◌∷◌, ◌++◌, map, All, Result, ok,
}
use express_send.Text.{Text, eqb, lookup, codes, is_some}
use express_send.Text.Laws.{eqb_iff, eqb_refl}
use express_send.Config.Chats.{Chats, resolve_chat_ref}
use express_send.Server.Auth.{ResolvedKey, build_key_map}
use express_send.Serve.Keys.{
  ApiKeyConfig, resolve_scope, resolve_key_scope, key_value, resolve_api_key, resolve_api_keys,
  check_collisions, check_key_collisions, single_key, assemble_keys,
}

module _ {ℓ} {A : Type ℓ} (P : A → Type 0) where
  All-left : (xs ys : List A) → All P (xs ++ ys) → All P xs
  All-left [] ys h = tt
  All-left (x ∷ xs) ys (p, h) = (p, All-left xs ys h)

-- The entry of the key map for a key.
abbrev pub lowered : (Text → Text) → ResolvedKey → ResolvedKey
lowered to_lower rk = record { name = rk.name; chats = map to_lower rk.chats }

module _ (to_lower : Text → Text) where
  -- The value of a seen key is not taken by a later one.
  build_key_map-seen :
      (seen : List (Text × Text)) (m keys : List (Text × ResolvedKey)) (key owner : Text)
      → lookup key seen ≡ some owner
      → check_collisions seen keys ≡ none
      → lookup key (build_key_map to_lower m keys) ≡ lookup key m
  unfolding build_key_map check_collisions
  build_key_map-seen seen m [] key owner e h = refl
  build_key_map-seen seen m ((k, rk) ∷ keys) key owner e h = elim (Option-cases (lookup k seen)) [
    | inr (o, taken) ↦ absurd (let bad = rw (taken, check_collisions) at h in cc)
    | inl free ↦ elim (Bool-cases (eqb k key)) [
      | inl same ↦ absurd (let bad = rw ((eqb_iff k key).0 same) at free in cc)
      | inr other ↦
          build_key_map-seen ((k, rk.name) ∷ seen) ((k, lowered to_lower rk) ∷ m) keys key owner
            (unfold lookup in rw other e) (rw (free, check_collisions) at h)
          ∙ (unfold lookup in rw other refl)
    ]
  ]

  build_key_map-kept :
      (seen : List (Text × Text)) (m keys : List (Text × ResolvedKey))
      → check_collisions seen keys ≡ none
      → All (λ e. lookup e.0 (build_key_map to_lower m keys) ≡ some (lowered to_lower e.1)) keys
  unfolding build_key_map check_collisions
  build_key_map-kept seen m [] h = tt
  build_key_map-kept seen m ((k, rk) ∷ keys) h = elim (Option-cases (lookup k seen)) [
    | inr (o, taken) ↦ absurd (let bad = rw (taken, check_collisions) at h in cc)
    | inl free ↦
        let rest = rw (free, check_collisions) at h in
        (
          build_key_map-seen ((k, rk.name) ∷ seen) ((k, lowered to_lower rk) ∷ m) keys k rk.name
                (unfold lookup in rw (eqb_refl k) refl) rest
              ∙ (unfold lookup in rw (eqb_refl k) refl),
          build_key_map-kept ((k, rk.name) ∷ seen) ((k, lowered to_lower rk) ∷ m) keys rest,
        )
  ]

module _ (resolve : Text → Result Text Text) (to_lower : Text → Text) (chats : Chats) where
  resolve_scope_nonempty :
      (name c : Text) (refs scope : List Text)
      → resolve_scope to_lower chats name (c ∷ refs) ≡ ok scope
      → map to_lower scope ≢ []
  unfolding resolve_scope
  resolve_scope_nonempty name c refs scope h = elim (Result-cases (resolve_chat_ref chats c)) [
    | inr (why, e) ↦ absurd (let bad = rw (e, resolve_scope) at h in cc)
    | inl (r, e) ↦
        let (more, e2, h2) =
          >>=-eq-ok (resolve_scope to_lower chats name refs) _ (rw (e, resolve_scope) at h) in
        λ empty. absurd (let bad = rw (sym (ok-injective h2)) at empty in cc)
  ]

  resolve_key_scope_nonempty :
      (k : ApiKeyConfig) (scope : List Text)
      → is_some k.chats ≡ true
      → resolve_key_scope to_lower chats k ≡ ok scope
      → map to_lower scope ≢ []
  unfolding resolve_key_scope
  resolve_key_scope_nonempty k scope has h = elim (Option-cases k.chats) [
    | inl e ↦ absurd (let bad = rw e at has in cc)
    | inr ([], e) ↦ absurd (let bad = rw (e, resolve_key_scope) at h in cc)
    | inr (c ∷ refs, e) ↦
        resolve_scope_nonempty k.name c refs scope (rw (e, resolve_key_scope) at h)
  ]

  -- A configured key is in a key map under its resolved value, with its own name and scope, and the
  -- scope is not empty where the configuration gives one.
  pub InMap : List (Text × ResolvedKey) → ApiKeyConfig → Type 0
  InMap m k =
      (v : Text) × (scope : List Text) × (resolve k.key ≡ ok v)
      × (resolve_key_scope to_lower chats k ≡ ok scope)
      × (lookup v m ≡ some (record { name = k.name; chats = map to_lower scope }))
      × (is_some k.chats ≡ true → map to_lower scope ≢ [])

  key_value_ok : (name key v : Text) → key_value resolve name key ≡ ok v → resolve key ≡ ok v
  unfolding key_value
  key_value_ok name key v h = elim (Result-cases (resolve key)) [
    | inr (why, e) ↦ absurd (let bad = rw (e, key_value) at h in cc)
    | inl (a, e) ↦ e ∙ ap ok (ok-injective (rw (e, key_value) at h))
  ]

  resolve_api_keys-InMap :
      (m : List (Text × ResolvedKey)) (configured : List ApiKeyConfig)
      (keys : List (Text × ResolvedKey))
      → resolve_api_keys resolve to_lower chats configured ≡ ok keys
      → All (λ e. lookup e.0 m ≡ some (lowered to_lower e.1)) keys
      → All (InMap m) configured
  unfolding resolve_api_keys resolve_api_key InMap
  resolve_api_keys-InMap m [] keys h kept = tt
  resolve_api_keys-InMap m (k ∷ configured) keys h kept =
      let (r, e1, h1) = >>=-eq-ok (resolve_api_key resolve to_lower chats k) _ h in
      let (rs, e2, h2) = >>=-eq-ok (resolve_api_keys resolve to_lower chats configured) _ h1 in
      let (v, e3, h3) = >>=-eq-ok (key_value resolve k.name k.key) _ e1 in
      let (scope, e4, h4) = >>=-eq-ok (resolve_key_scope to_lower chats k) _ h3 in
      let (at_k, rest) =
        subst (All (λ e. lookup e.0 m ≡ some (lowered to_lower e.1))) (sym (ok-injective h2))
          kept in
      (
        (
          v,
          scope,
          key_value_ok k.name k.key v e3,
          e4,
          subst (λ e. lookup e.0 m ≡ some (lowered to_lower e.1)) (sym (ok-injective h4)) at_k,
          λ has. resolve_key_scope_nonempty k scope has e4,
        ),
        resolve_api_keys-InMap m configured rs e2 rest,
      )

  -- Where the keys of the configuration, of the flag and of the environment are accepted, the key map of the server
  -- has every configured key under its resolved value with its own scope: no other key, and none
  -- of the unscoped ones, takes its place, and a key with configured chats is never without a scope.
  pub assemble_keys-InMap :
      (configured : List ApiKeyConfig) (api_key_flag api_key_env : Text)
      (all : List (Text × ResolvedKey))
      → assemble_keys resolve to_lower chats configured api_key_flag api_key_env ≡ ok all
      → All (InMap (build_key_map to_lower [] all)) configured
  unfolding assemble_keys check_key_collisions
  assemble_keys-InMap configured flag env all h =
      let (keys, e1, h1) = >>=-eq-ok (resolve_api_keys resolve to_lower chats configured) _ h in
      let (cli, e2, h2) = >>=-eq-ok (single_key resolve (codes "cli") flag) _ h1 in
      let (envs, e3, h3) = >>=-eq-ok (single_key resolve (codes "env") env) _ h2 in
      elim (Option-cases (check_collisions [] (keys ++ (cli ++ envs)))) [
        | inr (why, e) ↦ absurd (let bad = rw e at h3 in cc)
        | inl e ↦
            let same = ok-injective (rw e at h3) in
            let kept = build_key_map-kept to_lower [] [] (keys ++ (cli ++ envs)) e in
            subst (λ x. All (InMap (build_key_map to_lower [] x)) configured) same
              (resolve_api_keys-InMap _ configured keys e1 (All-left _ keys (cli ++ envs) kept))
      ]
