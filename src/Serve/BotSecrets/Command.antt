-- ===== src/Serve/BotSecrets/Command.antt =====
-- The callbacks endpoint with the secrets of the configuration.
use express_send.Common.{
  ◌≡◌, ◌≢◌, sym, ap, ◌∙◌, subst, inl, inr, Result-cases, Option, true, some, Result, ok, err, List,
  [], ◌++◌, eq_of_some, ok-injective,
}
use express_send.Text.{Text, codes}
use express_send.Config.Types.{Config}
use express_send.Server.Callbacks.{RouterRule, CallbackPayload}
use express_send.Server.CallbackToken.{JwtClaims, JwtWorld, serve_command}
use express_send.Server.CallbackToken.Laws.{Verified, serve_command-Verified}
use express_send.Serve.BotSecrets.{LookupError, SecretLookup, find_secret, build_bot_secret_lookup}
use express_send.Serve.BotSecrets.Laws.{IsConfigured, build_bot_secret_lookup_iff}

-- The lookup as the endpoint is given it, with the errors as texts.
abbrev pub lookup_of : (LookupError → Text) → SecretLookup → Text → Result Text Text
lookup_of describe look id = elim (find_secret look id) [ ok s ↦ ok s | err e ↦ err (describe e) ]

lookup_of-ok :
    (describe : LookupError → Text) (look : SecretLookup) (id s : Text)
    → lookup_of describe look id ≡ ok s
    → find_secret look id ≡ ok s
lookup_of-ok describe look id s h = elim (Result-cases (find_secret look id)) [
  | inl (t, e) ↦ e ∙ ap ok (ok-injective (rw (e, lookup_of) at h))
  | inr (why, e) ↦ absurd (let bad = rw (e, lookup_of) at h in cc)
]

-- Where the callbacks endpoint verifies tokens by the secrets of a configuration, it calls handlers only
-- for a request whose payload names a bot with a secret that the configuration gives it, and whose
-- token is signed by this secret, for this bot, and valid now.
pub serve_command-IsConfigured :
    (j : JwtWorld) {Handler : Type 0} (rules : List (RouterRule Handler))
    (unmarshal : Text → Option CallbackPayload) (resolved : Text → Result Text Text) (c : Config)
    (look : SecretLookup) (describe : LookupError → Text) (auth body : Text)
    → build_bot_secret_lookup resolved c ≡ ok look
    → (serve_command j rules unmarshal true (some (lookup_of describe look)) auth (some body)).1
      ≢ []
    → (token : Text) × (claims : JwtClaims) × (payload : CallbackPayload) × (auth
        ≡ codes "Bearer " ++ token)
      × (unmarshal body ≡ some payload)
      × (verified : Verified j (lookup_of describe look) token claims) × IsConfigured resolved c
          payload.bot_id verified.secret
serve_command-IsConfigured j rules unmarshal resolved c look describe auth body built called =
    let (f, token, claims, payload, given, bearer, verified, read, bot) =
      serve_command-Verified j rules unmarshal (some (lookup_of describe look)) auth body called in
    let same : Verified j (lookup_of describe look) token claims =
      subst (λ g. Verified j g token claims) (sym (eq_of_some given)) verified in
    let (sound, _) = build_bot_secret_lookup_iff resolved c look built in
    (
      token,
      claims,
      payload,
      bearer,
      read,
      same,
      subst (λ id. IsConfigured resolved c id same.secret) (sym bot)
          (sound claims.aud same.secret
            (lookup_of-ok describe look claims.aud same.secret same.of_bot)),
    )
