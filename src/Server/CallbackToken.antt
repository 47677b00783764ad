-- ===== src/Server/CallbackToken.antt =====
-- The tokens of callbacks: internal/server/callback_jwt.go. Base64, JSON, HMAC, the clock and
-- `strings.EqualFold` are the fields of `JwtWorld`. An int64 v is the number v + 2 ^ 63, whose order
-- is that of v.
pub mod Laws
use express_send.Common.{
  ℕ, ltb, ◌+◌, ◌-◌, ◌%◌, Bool, true, false, ◌&&◌, not, if◌then◌else◌, Option, none, some, List, [],
  ◌∷◌, ◌++◌, Result, ok, err, ◌>>=◌,
}
use express_send.Text.{Text, codes, eqb, split, cut_prefix}
use express_send.Server.Callbacks.{RouterRule, CallbackPayload, Answer, Call, handle_command}

-- `jwtClaims`.
pub record JwtClaims : Type 0 where
  pub aud : Text
  pub exp : Option ℕ
  pub nbf : Option ℕ

pub record JwtWorld : Type 0 where
  pub decode_base64 : Text → Option Text
  pub read_alg : Text → Option Text
  pub read_claims : Text → Option JwtClaims
  pub hmac : Text → Text → Text
  pub equal_fold : Text → Text → Bool
  pub now : ℕ

pub data JwtError : Type 0 where
  malformed bad_encoding bad_json alg_none wrong_algorithm missing_aud wrong_signature expired
        not_yet_valid :
      JwtError
  secret_lookup : Text → JwtError

-- `v + 60` and `v - 60` on int64.
unfoldable pub add_skew : ℕ → ℕ
add_skew v = (v + 60) % 18446744073709551616

unfoldable pub sub_skew : ℕ → ℕ
sub_skew v = (v + 18446744073709551556) % 18446744073709551616

module _ (j : JwtWorld) where
  abbrev decoded : Text → Result JwtError Text
  decoded s = elim (j.decode_base64 s) [ some b ↦ ok b | none ↦ err bad_encoding ]

  unfoldable pub check_header : Text → Result JwtError Text
  unfolding eqb
  check_header part = decoded part >>= λ bytes. elim (j.read_alg bytes) [
    | none ↦ err bad_json
    | some alg ↦
        if j.equal_fold alg (codes "none")
        then err alg_none
        else if not (eqb alg (codes "HS256"))
        then err wrong_algorithm
        else ok alg
  ]

  unfoldable pub check_claims : Text → Result JwtError JwtClaims
  unfolding eqb
  check_claims part = decoded part >>= λ bytes. elim (j.read_claims bytes) [
    | none ↦ err bad_json
    | some claims ↦ if eqb claims.aud [] then err missing_aud else ok claims
  ]

  unfoldable pub check_signature :
      (Text → Result Text Text) → JwtClaims → Text → Text → Text → Result JwtError Text
  unfolding eqb
  check_signature secret_lookup_fn claims header payload sig = elim (secret_lookup_fn claims.aud) [
    | err why ↦ err (secret_lookup why)
    | ok secret ↦ decoded sig >>= λ actual.
        if not (eqb (j.hmac secret (header ++ (b'.' ∷ payload))) actual)
        then err wrong_signature
        else ok secret
  ]

  -- The claims on time, against the clock.
  unfoldable pub is_expired : JwtClaims → Bool
  unfolding add_skew
  is_expired claims = elim claims.exp [ none ↦ false | some e ↦ ltb (add_skew e) j.now ]

  unfoldable pub is_early : JwtClaims → Bool
  unfolding sub_skew
  is_early claims = elim claims.nbf [ none ↦ false | some n ↦ ltb j.now (sub_skew n) ]

  -- `verifyCallbackJWT`.
  unfoldable pub verify_callback_jwt : (Text → Result Text Text) → Text → Result JwtError JwtClaims
  unfolding check_header check_claims check_signature is_expired is_early split
  verify_callback_jwt secret_lookup_fn token = elim (split token b'.') [
    | header ∷ payload ∷ sig ∷ [] ↦ check_header header >>= λ _. check_claims payload >>= λ claims.
        check_signature secret_lookup_fn claims header payload sig >>= λ _.
        if is_expired claims
        then err expired
        else if is_early claims
        then err not_yet_valid
        else ok claims
    | _ ↦ err malformed
  ]

  -- `callbackJWTMiddleware`: the audience that the handler finds in its context, or the message of a
  -- 401. Without a secret lookup nothing is let in.
  unfoldable pub callback_jwt_middleware :
      Bool → Option (Text → Result Text Text) → Text → Result Text Text
  unfolding verify_callback_jwt cut_prefix
  callback_jwt_middleware false secret_lookup_fn auth = ok []
  callback_jwt_middleware true none auth = err (codes "JWT verification is not configured")
  callback_jwt_middleware true (some lookup_secret) auth =
      let checked : Result Text Text = elim (cut_prefix auth (codes "Bearer ")) [
        | none ↦ err (codes "Authorization header must use Bearer scheme")
        | some [] ↦ err (codes "empty Bearer token")
        | some (x ∷ token) ↦ elim (verify_callback_jwt lookup_secret (x ∷ token)) [
          | err why ↦ err (codes "JWT verification failed")
          | ok claims ↦ ok claims.aud
        ]
      ] in
      if eqb auth [] then err (codes "missing Authorization header") else checked

  -- The command endpoint behind the middleware: the refusal, or what the handler does.
  unfoldable pub serve_command :
      {Handler : Type 0}
      → List (RouterRule Handler)
      → (Text → Option CallbackPayload)
      → Bool
      → Option (Text → Result Text Text)
      → Text
      → Option Text
      → Answer × List (Call Handler)
  unfolding callback_jwt_middleware handle_command
  serve_command rules unmarshal verify_enabled secret_lookup_fn auth body =
      elim (callback_jwt_middleware verify_enabled secret_lookup_fn auth) [
        | err why ↦ (record { code = 401; error = some why }, [])
        | ok aud ↦ handle_command rules unmarshal aud body
      ]
