-- ===== src/Server/Auth/Laws.antt =====
-- Who is let in, and to which chats.
use express_send.Common.{
  Bool, true, false, ◌&&◌, if◌then◌else◌, Option, none, some, List, [], ◌∷◌, ◌++◌, ◌≡◌, ◌≢◌, ◌↔◌,
  inl, inr, refl, sym, ap, ◌∙◌, arith, Result, ok, err, Bool-cases, Option-cases, Result-cases, All,
  ok-injective,
}
use express_send.Text.{Text, codes, eqb, lookup, cut_prefix}
use express_send.Text.Laws.{eqb_iff, cut_prefix_sound, cut_prefix-append}
use express_send.Server.Types.{Context, ChatResult, is_uuid, unauthorized, forbidden, refused}
use express_send.Server.Auth.{
  Credentials, ResolvedKey, AuthConfig, extract_key, find_signature, match_key, match_signature,
  auth_middleware, is_empty, chat_allowed, check_targets, authorize_targets,
}

-- A target that the caller may address: it resolves to a chat within the scope.
abbrev pub IsAllowed : (Text → Text) → (Text → Result Text ChatResult) → Context → Text → Type 0
IsAllowed to_lower chats ctx target =
    (chat : ChatResult) × (chats target ≡ ok chat) × (chat_allowed to_lower ctx chat.chat_id ≡ true)

check_targets-IsAllowed :
    (to_lower : Text → Text) (chats : Text → Result Text ChatResult) (ctx : Context)
    (targets : List Text)
    → check_targets to_lower chats ctx true targets ≡ none
    → All (IsAllowed to_lower chats ctx) targets
unfolding check_targets
check_targets-IsAllowed to_lower chats ctx [] h = tt
check_targets-IsAllowed to_lower chats ctx (t ∷ targets) h = elim (Result-cases (chats t)) [
  | inr (why, e) ↦ absurd (let bad = rw (e, check_targets) at h in cc)
  | inl (chat, e) ↦ elim (Bool-cases (chat_allowed to_lower ctx chat.chat_id)) [
    | inl allowed ↦ (
      (chat, e, allowed),
      check_targets-IsAllowed to_lower chats ctx targets
          (rw allowed at (rw (e, check_targets) at h)),
    )
    | inr refused_ ↦ absurd (let bad = rw refused_ at (rw (e, check_targets) at h) in cc)
  ]
]

check_targets_complete :
    (to_lower : Text → Text) (chats : Text → Result Text ChatResult) (ctx : Context)
    (targets : List Text)
    → All (IsAllowed to_lower chats ctx) targets
    → check_targets to_lower chats ctx true targets ≡ none
unfolding check_targets
check_targets_complete to_lower chats ctx [] h = refl
check_targets_complete to_lower chats ctx (t ∷ targets) ((chat, e, allowed), h) =
    rw (e, check_targets) (rw allowed (check_targets_complete to_lower chats ctx targets h))

pub nonempty : (scope : List Text) → scope ≢ [] → is_empty scope ≡ false
nonempty [] ne = absurd (ne refl)
nonempty (c ∷ scope) ne = refl

-- What lets a target of a scoped caller pass: where targets are resolved, a chat within the scope
-- that it resolves to; where they are not, the scope for a target that is a UUID.
abbrev pub Admissible :
    (Text → Text) → (Text → Result Text ChatResult) → Context → Bool → Text → Type 0
Admissible to_lower chats ctx true target = IsAllowed to_lower chats ctx target
Admissible to_lower chats ctx false target =
    is_uuid target ≡ true → chat_allowed to_lower ctx target ≡ true

unresolved_iff :
    (to_lower : Text → Text) (chats : Text → Result Text ChatResult) (ctx : Context)
    (targets : List Text)
    → (check_targets to_lower chats ctx false targets ≡ none)
      ↔ All (Admissible to_lower chats ctx false) targets
unfolding check_targets
unresolved_iff to_lower chats ctx [] = (λ h. tt, λ h. refl)
unresolved_iff to_lower chats ctx (t ∷ targets) =
    ground (arith, unresolved_iff to_lower chats ctx targets)

-- A scoped caller's request goes on exactly when every chat that it names resolves to a chat
-- within the scope; one chat outside stops the whole request.
pub authorize_targets_resolved :
    (to_lower : Text → Text) (chats : Text → Result Text ChatResult) (ctx : Context)
    (targets : List Text)
    → ctx.key_scope ≢ []
    → (authorize_targets to_lower chats ctx targets true ≡ none)
      ↔ All (IsAllowed to_lower chats ctx) targets
unfolding authorize_targets
authorize_targets_resolved to_lower chats ctx targets ne =
    rw (nonempty ctx.key_scope ne, authorize_targets)
      (
        check_targets-IsAllowed to_lower chats ctx targets,
        check_targets_complete to_lower chats ctx targets,
      )

-- A scoped caller's request goes on exactly when every chat that it names may be addressed: where
-- targets are resolved, as in synchronous mode, each resolves to a chat within the scope; where they
-- are not, each that is a UUID is within the scope.
pub authorize_targets_iff :
    (to_lower : Text → Text) (chats : Text → Result Text ChatResult) (ctx : Context)
    (resolve : Bool) (targets : List Text)
    → ctx.key_scope ≢ []
    → (authorize_targets to_lower chats ctx targets resolve ≡ none)
      ↔ All (Admissible to_lower chats ctx resolve) targets
authorize_targets_iff to_lower chats ctx true targets ne =
    authorize_targets_resolved to_lower chats ctx targets ne
authorize_targets_iff to_lower chats ctx false targets ne =
    unfold authorize_targets in
    rw (nonempty ctx.key_scope ne, authorize_targets) (unresolved_iff to_lower chats ctx targets)

-- The key that the headers carry: behind "Bearer ", or else in X-API-Key.
pub data CarriesKey (r : Credentials) (key : Text) : Type 0 where
  bearer : r.authorization ≡ codes "Bearer " ++ key → CarriesKey r key
  api_key :
      ((w : Text) → r.authorization ≢ codes "Bearer " ++ w) → r.x_api_key ≡ key → CarriesKey r key

-- A request is let in by a configured key, with the scope of that key, or by the signature of a
-- bot where this is allowed; a key comes first.
pub data Admits (cfg : AuthConfig) (r : Credentials) (ctx : Context) : Type 0 where
  by_key :
      (key : Text) (rk : ResolvedKey)
      → CarriesKey r key
      → key ≢ []
      → lookup key cfg.key_map ≡ some rk
      → ctx ≡ record { key_name = rk.name; auth_bot = []; key_scope = rk.chats }
      → Admits cfg r ctx
  by_signature :
      (bot : Text)
      → cfg.allow_bot_secret_auth ≡ true
      → r.x_bot_signature ≢ []
      → find_signature r.x_bot_signature cfg.bot_signatures ≡ some bot
      → ctx ≡ record { key_name = codes "bot_secret"; auth_bot = bot; key_scope = [] }
      → Admits cfg r ctx

missing_prefix : (s p w : Text) → cut_prefix s p ≡ none → s ≢ p ++ w
missing_prefix s p w e same =
    let bad : ◌≡◌ {A = Option Text} none (some w) =
      sym e ∙ (ap (λ t. cut_prefix t p) same ∙ cut_prefix-append p w) in
    cc

extract_key-CarriesKey : (r : Credentials) → CarriesKey r (extract_key r)
unfolding extract_key
extract_key-CarriesKey r = elim (Option-cases (cut_prefix r.authorization (codes "Bearer "))) [
  | inl e ↦
      rw e (api_key (λ w same. missing_prefix r.authorization (codes "Bearer ") w e same) refl)
  | inr (key, e) ↦ rw e (bearer (cut_prefix_sound r.authorization (codes "Bearer ") key e))
]

match_key_sound :
    (cfg : AuthConfig) (key : Text) (rk : ResolvedKey)
    → match_key cfg key ≡ some rk
    → (key ≢ []) × (lookup key cfg.key_map ≡ some rk)
unfolding match_key
match_key_sound cfg key rk h = ground (arith, eqb_iff key [])

match_signature_sound :
    (cfg : AuthConfig) (sig bot : Text)
    → match_signature cfg sig ≡ some bot
    → (cfg.allow_bot_secret_auth ≡ true)
      × (sig ≢ [])
      × (find_signature sig cfg.bot_signatures ≡ some bot)
unfolding match_signature
match_signature_sound cfg sig bot h = ground (arith, eqb_iff sig [])

refused_ne_ok :
    (cfg : AuthConfig) (r : Credentials) (ctx : Context)
    → (if eqb (extract_key r) [] && eqb r.x_bot_signature []
        then err (refused 401 unauthorized)
        else err (refused 403 forbidden))
      ≢ ok ctx
refused_ne_ok cfg r ctx h = ground arith

-- Whoever is let in has shown a configured key or signature, and carries exactly its scope.
pub auth_middleware-Admits :
    (cfg : AuthConfig) (r : Credentials) (ctx : Context)
    → auth_middleware cfg r ≡ ok ctx
    → Admits cfg r ctx
unfolding auth_middleware
auth_middleware-Admits cfg r ctx h = elim (Option-cases (match_key cfg (extract_key r))) [
  | inr (rk, e) ↦
      let (ne, found) = match_key_sound cfg (extract_key r) rk e in
      by_key (extract_key r) rk (extract_key-CarriesKey r) ne found
        (sym (ok-injective (rw (e, auth_middleware) at h)))
  | inl e ↦ elim (Option-cases (match_signature cfg r.x_bot_signature)) [
    | inr (bot, e') ↦
        let (allow, ne, found) = match_signature_sound cfg r.x_bot_signature bot e' in
        by_signature bot allow ne found (sym (ok-injective (rw (e, e', auth_middleware) at h)))
    | inl e' ↦ absurd (refused_ne_ok cfg r ctx (rw (e, e', auth_middleware) at h))
  ]
]
