-- ===== src/Tests/Tokens.antt =====
-- The theorems on the token cache and on the tokens of callbacks at concrete inputs.
use express_send.Common.{
  ◌≤◌, ℕ, ◌+◌, ltb, true, false, Option, none, some, List, [], ◌∷◌, ◌++◌, ◌≡◌, ◌≢◌, refl, Result,
  ok,
}
use express_send.Text.{Text, codes, eqb, split, cut_prefix, contains, lookup, map_set}
use express_send.Token.Cache.{CacheFile, file_get, file_set}
use express_send.Token.Cache.Laws.{file_get-file_set}
use express_send.Server.Callbacks.{
  RouterRule, CallbackPayload, parse_event_type, route, calls_for, handle_command, listens,
}
use express_send.Server.CallbackToken.{
  JwtClaims, JwtWorld, add_skew, sub_skew, check_header, check_claims, check_signature, is_expired,
  is_early, verify_callback_jwt, callback_jwt_middleware, serve_command,
}
use express_send.Server.CallbackToken.Laws.{Verified}
use express_send.Config.Types.{Config}
use express_send.Serve.BotSecrets.{
  LookupError, SecretLookup, by_id, find_secret, cache_secrets, build_bot_secret_lookup,
}
use express_send.Serve.BotSecrets.Laws.{IsConfigured, build_bot_secret_lookup_iff}
use express_send.Serve.BotSecrets.Command.{lookup_of, serve_command-IsConfigured}

-- A cache with an expired token and another one.
abbrev file : CacheFile
file = some (
    (codes "x:b1", record { token = codes "t1"; expires = 50 })
    ∷ (codes "x:b2", record { token = codes "t2"; expires = 500 })
    ∷ [])

file_get-file_set_example :
    (ltb (100 + 60) 150 ≡ false
      → file_get 150 (codes "x:b1") (file_set true 100 (codes "x:b1") (codes "t3") 60 file)
        ≡ codes "t3")
    × (codes "x:b1" ≢ codes "x:b2"
        → 100 ≤ 150
        → file_get 150 (codes "x:b2") (file_set true 100 (codes "x:b1") (codes "t3") 60 file)
          ≡ file_get 150 (codes "x:b2") file)
unfolding contains eqb
file_get-file_set_example =
    file_get-file_set 100 150 60 (codes "x:b1") (codes "t3") (codes "x:b2") file (refl, (refl, tt))

abbrev world : JwtWorld
world = record {
  decode_base64 = λ s. some s;
  read_alg = λ bytes. some (codes "HS256");
  read_claims =
      λ bytes. some (record { aud = codes "b1"; exp = some 9223372036854775900; nbf = none });
  hmac = λ secret input. codes "sig";
  equal_fold = λ a b. false;
  now = 9223372036854775908;
}

abbrev command : CallbackPayload
command = record {
  sync_id = codes "s";
  bot_id = codes "b1";
  group_chat_id = codes "c1";
  command_body = codes "hello";
}

abbrev rules : List (RouterRule ℕ)
rules = record { events = codes "*" ∷ []; handler = 2; async = true } ∷ []

abbrev unmarshal : Text → Option CallbackPayload
unmarshal body = some command

abbrev blank : Config
blank = record {
  bots = [];
  chats = [];
  cache = record { cache_type = []; file_path = []; vault_url = []; vault_path = []; ttl = 0 };
  host = codes "x.example";
  bot_id = [];
  bot_secret = [];
  bot_token = [];
  bot_name = [];
  bot_timeout = 9223372036854775808;
  chat_id = [];
  format = [];
  multi_bot = true;
  no_cache = false;
  routing_mode = [];
  queue_driver = [];
}

-- Two bots, of which one has a secret.
abbrev cfg : Config
cfg = record blank {
  bots =
      (
        codes "main",
        record {
          host = codes "x.example";
          id = codes "b1";
          secret = codes "secret";
          token = [];
          timeout = 9223372036854775813;
        },
      )
      ∷ (
        codes "static",
        record {
          host = codes "x.example";
          id = codes "b2";
          secret = [];
          token = codes "t";
          timeout = 9223372036854775813;
        },
      )
      ∷ [];
}

abbrev resolved : Text → Result Text Text
resolved s = ok s

abbrev secrets : SecretLookup
secrets = by_id ((codes "b1", codes "secret") ∷ [])

abbrev describe : LookupError → Text
describe e = codes "no secret"

called :
    (serve_command world rules unmarshal true
      (some (lookup_of describe secrets))
      (codes "Bearer h.p.sig")
      (some (codes "{}"))).1
    ≢ []
unfolding eqb split cut_prefix contains lookup find_secret add_skew sub_skew check_header
    check_claims check_signature is_expired is_early verify_callback_jwt callback_jwt_middleware
    serve_command handle_command parse_event_type route calls_for listens
called e = cc

build_bot_secret_lookup_iff_example :
    ((id s : Text) → find_secret secrets id ≡ ok s → IsConfigured resolved cfg id s)
    × ((id s : Text)
        → IsConfigured resolved cfg id s
        → (t : Text) × (find_secret secrets id ≡ ok t))
unfolding build_bot_secret_lookup cache_secrets map_set eqb
build_bot_secret_lookup_iff_example = build_bot_secret_lookup_iff resolved cfg secrets refl

serve_command-IsConfigured_example :
    (token : Text) × (claims : JwtClaims) × (payload : CallbackPayload) × (codes "Bearer h.p.sig"
      ≡ codes "Bearer " ++ token)
    × (unmarshal (codes "{}") ≡ some payload)
    × (verified : Verified world (lookup_of describe secrets) token claims) × IsConfigured resolved
        cfg payload.bot_id verified.secret
unfolding build_bot_secret_lookup cache_secrets map_set eqb
serve_command-IsConfigured_example =
    serve_command-IsConfigured world rules unmarshal resolved cfg secrets describe
      (codes "Bearer h.p.sig") (codes "{}") refl called
