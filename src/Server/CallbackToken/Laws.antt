-- ===== src/Server/CallbackToken/Laws.antt =====
-- Which tokens are accepted, and which handlers they reach.
use express_send.Common.{
  ◌≡◌, ◌≢◌, refl, sym, ap, ◌∙◌, subst, inl, inr, Bool-cases, Option-cases, Result-cases, >>=-eq-ok,
  ok-injective, true, false, Option, none, some, ok, Result, List, [], ◌∷◌, ◌++◌,
}
use express_send.Text.{Text, codes, eqb, split, cut_prefix}
use express_send.Text.Laws.{eqb_iff, neq_of_eqb, cut_prefix_sound}
use express_send.Server.Callbacks.{RouterRule, CallbackPayload}
use express_send.Server.Callbacks.Laws.{handle_command-verified}
use express_send.Server.CallbackToken.{
  JwtClaims, JwtWorld, decoded, check_header, check_claims, check_signature, is_expired, is_early,
  verify_callback_jwt, callback_jwt_middleware, serve_command,
}

module _ (j : JwtWorld) where
  -- A token that is signed with HS256 by the secret of the bot that it is for, and is valid now.
  pub record Verified (lookup_secret : Text → Result Text Text) (token : Text) (claims : JwtClaims)
      : Type 0 where
    pub header : Text
    pub payload : Text
    pub sig : Text
    pub header_bytes : Text
    pub payload_bytes : Text
    pub secret : Text
    pub parts : split token b'.' ≡ header ∷ payload ∷ sig ∷ []
    pub header_read : j.decode_base64 header ≡ some header_bytes
    pub alg : j.read_alg header_bytes ≡ some (codes "HS256")
    pub payload_read : j.decode_base64 payload ≡ some payload_bytes
    pub claims_read : j.read_claims payload_bytes ≡ some claims
    pub for_bot : claims.aud ≢ []
    pub of_bot : lookup_secret claims.aud ≡ ok secret
    pub signed : j.decode_base64 sig ≡ some (j.hmac secret (header ++ (b'.' ∷ payload)))
    pub not_expired : is_expired j claims ≡ false
    pub not_early : is_early j claims ≡ false

  decoded_ok : (s b : Text) → decoded j s ≡ ok b → j.decode_base64 s ≡ some b
  decoded_ok s b h = elim (Option-cases (j.decode_base64 s)) [
    | inl e ↦ absurd (let bad = rw (e, decoded) at h in cc)
    | inr (a, e) ↦ e ∙ ap some (ok-injective (rw (e, decoded) at h))
  ]

  check_header_ok :
      (part alg : Text)
      → check_header j part ≡ ok alg
      → (bytes : Text) × (j.decode_base64 part ≡ some bytes)
        × (j.read_alg bytes ≡ some (codes "HS256"))
  unfolding check_header
  check_header_ok part alg h =
      let (bytes, e1, h1) = >>=-eq-ok (decoded j part) _ h in
      elim (Option-cases (j.read_alg bytes)) [
        | inl e ↦ absurd (let bad = rw e at h1 in cc)
        | inr (a, e) ↦ elim (Bool-cases (j.equal_fold a (codes "none"))) [
          | inl k ↦ absurd (let bad = rw (e, k) at h1 in cc)
          | inr k ↦ elim (Bool-cases (eqb a (codes "HS256"))) [
            | inr m ↦ absurd (let bad = rw (e, k, m) at h1 in cc)
            | inl m ↦
                (bytes, decoded_ok part bytes e1, e ∙ ap some ((eqb_iff a (codes "HS256")).0 m))
          ]
        ]
      ]

  check_claims_ok :
      (part : Text) (claims : JwtClaims)
      → check_claims j part ≡ ok claims
      → (bytes : Text) × (j.decode_base64 part ≡ some bytes)
        × (j.read_claims bytes ≡ some claims)
        × (claims.aud ≢ [])
  unfolding check_claims
  check_claims_ok part claims h =
      let (bytes, e1, h1) = >>=-eq-ok (decoded j part) _ h in
      elim (Option-cases (j.read_claims bytes)) [
        | inl e ↦ absurd (let bad = rw e at h1 in cc)
        | inr (c, e) ↦ elim (Bool-cases (eqb c.aud [])) [
          | inl k ↦ absurd (let bad = rw (e, k) at h1 in cc)
          | inr k ↦
              let same = ok-injective (rw (e, k) at h1) in
              (
                bytes,
                decoded_ok part bytes e1,
                e ∙ ap some same,
                subst (λ (x : JwtClaims). x.aud ≢ []) same (neq_of_eqb c.aud [] k),
              )
        ]
      ]

  check_signature_ok :
      (lookup_secret : Text → Result Text Text) (claims : JwtClaims)
      (header payload sig secret : Text)
      → check_signature j lookup_secret claims header payload sig ≡ ok secret
      → (lookup_secret claims.aud ≡ ok secret)
        × (j.decode_base64 sig ≡ some (j.hmac secret (header ++ (b'.' ∷ payload))))
  unfolding check_signature
  check_signature_ok lookup_secret claims header payload sig secret h =
      elim (Result-cases (lookup_secret claims.aud)) [
        | inr (why, e) ↦ absurd (let bad = rw (check_signature, e) at h in cc)
        | inl (s, e) ↦
            let (actual, e1, h1) = >>=-eq-ok (decoded j sig) _ (rw (check_signature, e) at h) in
            elim (Bool-cases (eqb (j.hmac s (header ++ (b'.' ∷ payload))) actual)) [
              | inr k ↦ absurd (let bad = rw k at h1 in cc)
              | inl k ↦
                  let same = ok-injective (rw k at h1) in
                  (
                    e ∙ ap ok same,
                    decoded_ok sig actual e1
                        ∙ ap some (sym ((eqb_iff _ actual).0 k))
                        ∙ ap (λ x. some (j.hmac x (header ++ (b'.' ∷ payload)))) same,
                  )
            ]
      ]

  verify_parts :
      (lookup_secret : Text → Result Text Text) (token : Text) (claims : JwtClaims) (ps : List Text)
      → split token b'.' ≡ ps
      → verify_callback_jwt j lookup_secret token ≡ ok claims
      → Verified lookup_secret token claims
  unfolding verify_callback_jwt
  verify_parts lookup_secret token claims [] e h =
      absurd (let bad = rw (verify_callback_jwt, e) at h in cc)
  verify_parts lookup_secret token claims (a ∷ []) e h =
      absurd (let bad = rw (verify_callback_jwt, e) at h in cc)
  verify_parts lookup_secret token claims (a ∷ b ∷ []) e h =
      absurd (let bad = rw (verify_callback_jwt, e) at h in cc)
  verify_parts lookup_secret token claims (a ∷ b ∷ c ∷ d ∷ ps) e h =
      absurd (let bad = rw (verify_callback_jwt, e) at h in cc)
  verify_parts lookup_secret token claims (header ∷ payload ∷ sig ∷ []) e h =
      let (alg, e1, h1) = >>=-eq-ok (check_header j header) _ (rw (verify_callback_jwt, e) at h) in
      let (c, e2, h2) = >>=-eq-ok (check_claims j payload) _ h1 in
      let (secret, e3, h3) =
        >>=-eq-ok (check_signature j lookup_secret c header payload sig) _ h2 in
      let (hb, hr, ha) = check_header_ok header alg e1 in
      let (pb, pr, pc, pa) = check_claims_ok payload c e2 in
      let (sl, sg) = check_signature_ok lookup_secret c header payload sig secret e3 in
      elim (Bool-cases (is_expired j c)) [
        | inl x ↦ absurd (let bad = rw x at h3 in cc)
        | inr x ↦ elim (Bool-cases (is_early j c)) [
          | inl y ↦ absurd (let bad = rw (x, y) at h3 in cc)
          | inr y ↦ subst (Verified lookup_secret token) (ok-injective (rw (x, y) at h3)) (record {
            header = header;
            payload = payload;
            sig = sig;
            header_bytes = hb;
            payload_bytes = pb;
            secret = secret;
            parts = e;
            header_read = hr;
            alg = ha;
            payload_read = pr;
            claims_read = pc;
            for_bot = pa;
            of_bot = sl;
            signed = sg;
            not_expired = x;
            not_early = y;
          })
        ]
      ]

  -- A token is accepted only where it has three parts, its algorithm is HS256, its signature is the HMAC of
  -- the first two parts under the secret of the bot that it names, and it is within its times.
  pub verify_callback_jwt-Verified :
      (lookup_secret : Text → Result Text Text) (token : Text) (claims : JwtClaims)
      → verify_callback_jwt j lookup_secret token ≡ ok claims
      → Verified lookup_secret token claims
  verify_callback_jwt-Verified lookup_secret token claims h =
      verify_parts lookup_secret token claims (split token b'.') refl h

  middleware_ok :
      (lookup_secret : Text → Result Text Text) (auth aud : Text)
      → callback_jwt_middleware j true (some lookup_secret) auth ≡ ok aud
      → (token : Text) × (claims : JwtClaims) × (auth ≡ codes "Bearer " ++ token)
        × Verified lookup_secret token claims
        × (claims.aud ≡ aud)
  unfolding callback_jwt_middleware
  middleware_ok lookup_secret auth aud h = elim (Bool-cases (eqb auth [])) [
    | inl e ↦ absurd (let bad = rw (callback_jwt_middleware, e) at h in cc)
    | inr e ↦ elim (Option-cases (cut_prefix auth (codes "Bearer "))) [
      | inl k ↦ absurd (let bad = rw (callback_jwt_middleware, e, k) at h in cc)
      | inr ([], k) ↦ absurd (let bad = rw (callback_jwt_middleware, e, k) at h in cc)
      | inr (x ∷ token, k) ↦ elim (Result-cases (verify_callback_jwt j lookup_secret (x ∷ token))) [
        | inr (why, v) ↦ absurd (let bad = rw (callback_jwt_middleware, e, k, v) at h in cc)
        | inl (claims, v) ↦ (
          x ∷ token,
          claims,
          cut_prefix_sound auth (codes "Bearer ") (x ∷ token) k,
          verify_callback_jwt-Verified lookup_secret (x ∷ token) claims v,
          ok-injective (rw (callback_jwt_middleware, e, k, v) at h),
        )
      ]
    ]
  ]

  unconfigured : (auth aud : Text) → ¬ (callback_jwt_middleware j true none auth ≡ ok aud)
  unfolding callback_jwt_middleware
  unconfigured auth aud h = cc

  -- Where tokens are verified, a command calls handlers only for a payload whose bot is the one that the token of the request
  -- is for, and that token is signed by this bot's secret and valid now; without a secret lookup none is called.
  pub serve_command-Verified :
      {Handler : Type 0} (rules : List (RouterRule Handler))
      (unmarshal : Text → Option CallbackPayload)
      (secret_lookup_fn : Option (Text → Result Text Text)) (auth body : Text)
      → (serve_command j rules unmarshal true secret_lookup_fn auth (some body)).1 ≢ []
      → (lookup_secret : Text → Result Text Text) × (token : Text) × (claims : JwtClaims)
        × (payload : CallbackPayload) × (secret_lookup_fn ≡ some lookup_secret)
        × (auth ≡ codes "Bearer " ++ token)
        × Verified lookup_secret token claims
        × (unmarshal body ≡ some payload)
        × (payload.bot_id ≡ claims.aud)
  unfolding serve_command
  serve_command-Verified rules unmarshal secret_lookup_fn auth body called =
      elim (Result-cases (callback_jwt_middleware j true secret_lookup_fn auth)) [
        | inr (why, e) ↦ absurd (called (rw (e, serve_command) refl))
        | inl (aud, e) ↦ elim (Option-cases secret_lookup_fn) [
          | inl none_ ↦ absurd (let bad = unconfigured auth aud (rw none_ at e) in bad)
          | inr (lookup_secret, given) ↦
              let (token, claims, bearer, verified, same) =
                middleware_ok lookup_secret auth aud (rw given at e) in
              let (payload, read, _, _, _, bot) =
                handle_command-verified rules unmarshal aud body
                  (λ none_. called (rw (e, serve_command) none_)) in
              (
                lookup_secret,
                token,
                claims,
                payload,
                given,
                bearer,
                verified,
                read,
                bot (subst (λ x. x ≢ []) same verified.for_bot) ∙ sym same,
              )
        ]
      ]
