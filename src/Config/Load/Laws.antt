-- ===== src/Config/Load/Laws.antt =====
-- What a loaded configuration has, and which layer a value is from.
use express_send.Common.{
  ltb, leb, length, Bool, true, false, ◌&&◌, ◌||◌, not, Option, none, some, [], ◌∷◌, ok, ◌≡◌, refl,
  sym, ap, ◌∙◌, subst, ◌⊎◌, inl, inr, Bool-cases, Option-cases, >>=-eq-ok, ok-injective, eq_of_some,
  arith,
}
use express_send.Text.{Text, codes, eqb, lookup}
use express_send.Text.Laws.{eqb_refl}
use express_send.Config.Types.{BotSettings, Config, ConfigError}
use express_send.Config.Chats.{resolve_chat_bot_from_flags}
use express_send.Config.Bots.{
  Bots, with_bot, only_bot, apply_chat_bot, resolve_bot, validate_bot_configs, has_credentials,
  clear_stale_bot_name,
}
use express_send.Config.Load.{
  Flags, World, check, set_credentials, apply_env_with_auth, apply_env, apply_flags, load_file,
  load_layers, resolve_file_bot, resolve_bots, resolve_chats, fresh, resolve_secrets,
  require_credentials, pick_bot, load, load_for_serve,
}

-- At most one of the two credentials is set.
pub OneCredential : Text → Text → Type 0
OneCredential secret token = (eqb secret [] || eqb token []) ≡ true

check_ok : (e : Option ConfigError) (c d : Config) → check e c ≡ ok d → (e ≡ none) × (c ≡ d)
check_ok none c d h = (refl, ok-injective h)
check_ok (some e) c d h = absurd (cc)

pub lookup-OneCredential :
    (bots : Bots) (name : Text) (bot : BotSettings)
    → validate_bot_configs bots ≡ none
    → lookup name bots ≡ some bot
    → OneCredential bot.secret bot.token
unfolding validate_bot_configs lookup OneCredential
lookup-OneCredential [] name bot h k = absurd (cc)
lookup-OneCredential ((n, b) ∷ bots) name bot h k = elim (Bool-cases (eqb n name)) [
  | inl e ↦
      let same = eq_of_some (rw e at k) in
      subst (λ x. (eqb x.secret [] || eqb x.token []) ≡ true) same (ground arith)
  | inr e ↦ lookup-OneCredential bots name bot (ground arith) (rw e at k)
]

-- What every step of the loading keeps.
module _ (bots : Bots) (valid : validate_bot_configs bots ≡ none) where
  Sound : Config → Type 0
  Sound c = (c.bots ≡ bots) × OneCredential c.bot_secret c.bot_token

  with_bot-Sound :
      (c : Config) (name : Text) (bot : BotSettings)
      → Sound c
      → lookup name c.bots ≡ some bot
      → Sound (with_bot c name bot)
  unfolding Sound
  with_bot-Sound c name bot (same, one) k =
      (same, lookup-OneCredential bots name bot valid (rw same at k))

  apply_chat_bot-Sound :
      (c d : Config) (name : Text) → Sound c → apply_chat_bot c name ≡ ok d → Sound d
  unfolding apply_chat_bot
  apply_chat_bot-Sound c d name s h = elim (Option-cases (lookup name c.bots)) [
    | inl e ↦ absurd (let bad = rw (apply_chat_bot, e) at h in cc)
    | inr (bot, e) ↦
        subst Sound (ok-injective (rw (apply_chat_bot, e) at h)) (with_bot-Sound c name bot s e)
  ]

  only_bot-Sound :
      (c d : Config) (bs : Bots) → c.bots ≡ bs → Sound c → only_bot c bs ≡ ok d → Sound d
  unfolding only_bot
  only_bot-Sound c d [] same s h = subst Sound (ok-injective h) s
  only_bot-Sound c d ((name, bot) ∷ []) same s h =
      subst Sound (ok-injective h)
        (with_bot-Sound c name bot s (unfold lookup in rw (same, eqb_refl name)))
  only_bot-Sound c d (p ∷ q ∷ bs) same s h = absurd (cc)

  resolve_bot-Sound : (c d : Config) (flag : Text) → Sound c → resolve_bot c flag ≡ ok d → Sound d
  unfolding resolve_bot
  resolve_bot-Sound c d flag s h = elim (Bool-cases (eqb flag [])) [
    | inl e ↦ only_bot-Sound c d c.bots refl s (rw (resolve_bot, e) at h)
    | inr e ↦ elim (Option-cases (lookup flag c.bots)) [
      | inl k ↦ absurd (let bad = rw (resolve_bot, e, k) at h in cc)
      | inr (bot, k) ↦
          subst Sound (ok-injective (rw (resolve_bot, e, k) at h)) (with_bot-Sound c flag bot s k)
    ]
  ]

or_true : (b : Bool) → (b || true) ≡ true
or_true true = refl
or_true false = refl

resolve_file_bot-Sound :
    (bots : Bots) (valid : validate_bot_configs bots ≡ none) (flags : Flags) (c d : Config)
    → Sound bots valid c
    → resolve_file_bot flags c ≡ ok d
    → Sound bots valid d
unfolding resolve_file_bot
resolve_file_bot-Sound bots valid flags c d s h =
    elim (Bool-cases (not (eqb flags.bot []) || leb (length c.bots) 1)) [
      | inl e ↦ resolve_bot-Sound bots valid c d flags.bot s (rw e at h)
      | inr e ↦ subst (Sound bots valid) (ok-injective (rw e at h)) s
    ]

set_credentials_one :
    (secret token : Text) (c : Config)
    → OneCredential c.bot_secret c.bot_token
    → OneCredential
        (set_credentials secret token c).bot_secret
        (set_credentials secret token c).bot_token
unfolding set_credentials OneCredential
set_credentials_one secret token c h = elim (Bool-cases (eqb token [])) [
  | inr t ↦ rw t (rw (eqb_refl []) refl)
  | inl t ↦ elim (Bool-cases (eqb secret [])) [
    | inl s ↦ rw (t, s) h
    | inr s ↦ rw (t, s) (rw (eqb_refl []) (or_true _))
  ]
]

set_credentials_bots :
    (secret token : Text) (c : Config) → (set_credentials secret token c).bots ≡ c.bots
unfolding set_credentials
set_credentials_bots secret token c = elim (Bool-cases (eqb token [])) [
  | inl t ↦ elim (Bool-cases (eqb secret [])) [ inl s ↦ rw (t, s) refl | inr s ↦ rw (t, s) refl ]
  | inr t ↦ elim (Bool-cases (eqb secret [])) [ inl s ↦ rw (t, s) refl | inr s ↦ rw (t, s) refl ]
]

clear_stale_bot_name_cases :
    (c : Config)
    → (clear_stale_bot_name c ≡ c) ⊎ (clear_stale_bot_name c ≡ record c { bot_name = [] })
unfolding clear_stale_bot_name
clear_stale_bot_name_cases c = elim (Bool-cases (eqb c.bot_name [])) [
  | inl e ↦ inl (rw e refl)
  | inr e ↦ elim (Option-cases (lookup c.bot_name c.bots)) [
    | inl k ↦ inl (rw (e, k) refl)
    | inr (bot, k) ↦ ground (arith, k)
  ]
]

apply_env-Sound :
    (bots : Bots) (valid : validate_bot_configs bots ≡ none) (w : World) (c d : Config)
    → Sound bots valid c
    → apply_env w c ≡ ok d
    → Sound bots valid d
unfolding apply_env apply_env_with_auth Sound
apply_env-Sound bots valid w c d (same, one) h =
    elim (Bool-cases (
      not (eqb (w.getenv (codes "EXPRESS_BOTX_SECRET")) [])
      && not (eqb (w.getenv (codes "EXPRESS_BOTX_TOKEN")) []))) [
        | inl e ↦ absurd (let bad = rw e at h in cc)
        | inr e ↦
            subst (Sound bots valid) (ok-injective (rw e at h))
              (set_credentials_bots _ _ _ ∙ same, set_credentials_one _ _ _ one)
      ]

apply_flags-Sound :
    (bots : Bots) (valid : validate_bot_configs bots ≡ none) (flags : Flags) (c : Config)
    → Sound bots valid c
    → Sound bots valid (apply_flags flags c)
unfolding apply_flags Sound
apply_flags-Sound bots valid flags c (same, one) =
    (set_credentials_bots _ _ _ ∙ same, set_credentials_one _ _ _ one)

clear-Sound :
    (bots : Bots) (valid : validate_bot_configs bots ≡ none) (c : Config)
    → Sound bots valid c
    → Sound bots valid (clear_stale_bot_name c)
unfolding Sound
clear-Sound bots valid c s = elim (clear_stale_bot_name_cases c) [
  | inl e ↦ subst (Sound bots valid) (sym e) s
  | inr e ↦ subst (Sound bots valid) (sym e) s
]

load_file-Sound :
    (w : World) (c : Config)
    → load_file w ≡ ok c
    → (valid : validate_bot_configs c.bots ≡ none) × Sound c.bots valid c
unfolding load_file resolve_secrets Sound OneCredential
load_file-Sound w c h =
    let (f, e1, h1) = >>=-eq-ok w.read _ h in
    let (c1, e2, h2) = >>=-eq-ok (resolve_secrets w (fresh f)) _ h1 in
    let (c2, e3, h3) = >>=-eq-ok (check (validate_bot_configs c1.bots) c1) _ h2 in
    let (valid, same) = check_ok _ _ _ e3 in
    let (_, same') = check_ok _ _ _ h3 in
    let (bs, e4, h4) = >>=-eq-ok (resolve_bots w f.bots) _ e2 in
    let (cs, e5, h5) = >>=-eq-ok (resolve_chats w f.chats) _ h4 in
    subst (λ x. (valid : validate_bot_configs x.bots ≡ none) × Sound x.bots valid x) (same ∙ same')
      (
        valid,
        subst (λ x. (x.bots ≡ x.bots) × ((eqb x.bot_secret [] || eqb x.bot_token []) ≡ true))
            (ok-injective h5) (refl, rw (eqb_refl []) refl),
      )

-- The layers leave a configuration with one credential, and all its bots so.
load_layers-Sound :
    (w : World) (flags : Flags) (c : Config)
    → load_layers w flags ≡ ok c
    → (valid : validate_bot_configs c.bots ≡ none) × Sound c.bots valid c
unfolding load_layers Sound
load_layers-Sound w flags c h =
    let (c1, e1, h1) = >>=-eq-ok (load_file w) _ h in
    let (valid, s1) = load_file-Sound w c1 e1 in
    let (c2, e2, h2) = >>=-eq-ok (resolve_file_bot flags c1) _ h1 in
    let s2 = resolve_file_bot-Sound c1.bots valid flags c1 c2 s1 e2 in
    let (c3, e3, h3) = >>=-eq-ok (apply_env w c2) _ h2 in
    let s3 = apply_env-Sound c1.bots valid w c2 c3 s2 e3 in
    let s4 = clear-Sound c1.bots valid _ (apply_flags-Sound c1.bots valid flags c3 s3) in
    let s : Sound c1.bots valid c = subst (Sound c1.bots valid) (ok-injective h3) s4 in
    let same = s.0 in (rw same valid, (refl, s.1))

require_credentials_ok :
    (c d : Config) → require_credentials c ≡ ok d → (c ≡ d) × (has_credentials d ≡ true)
unfolding require_credentials has_credentials
require_credentials_ok c d h = elim (Bool-cases (eqb c.host [])) [
  | inl e ↦ absurd (let bad = rw e at h in cc)
  | inr e ↦ elim (Bool-cases (eqb c.bot_id [])) [
    | inl k ↦ absurd (let bad = rw (e, k) at h in cc)
    | inr k ↦ elim (Bool-cases (eqb c.bot_secret [] && eqb c.bot_token [])) [
      | inl m ↦ absurd (let bad = rw (e, k, m) at h in cc)
      | inr m ↦
          let same = ok-injective (rw (e, k, m) at h) in
          (
            same,
            subst (λ x. has_credentials x ≡ true) same (unfold has_credentials in ground arith),
          )
    ]
  ]
]

pick_bot-Sound :
    (bots : Bots) (valid : validate_bot_configs bots ≡ none) (flags : Flags) (c d : Config)
    → Sound bots valid c
    → pick_bot flags c ≡ ok d
    → Sound bots valid d
unfolding pick_bot
pick_bot-Sound bots valid flags c d s h =
    elim (Bool-cases (eqb flags.bot [] && ltb 1 (length c.bots) && eqb c.bot_name [])) [
      | inr e ↦ subst (Sound bots valid) (ok-injective (rw e at h)) s
      | inl e ↦ elim (Bool-cases (has_credentials c)) [
        | inl k ↦ subst (Sound bots valid) (ok-injective (rw (e, k) at h)) s
        | inr k ↦
            elim (Bool-cases (not (eqb (resolve_chat_bot_from_flags c.chats flags.chat_id) []))) [
              | inl m ↦ apply_chat_bot-Sound bots valid c d _ s (rw (e, k, m) at h)
              | inr m ↦ absurd (let bad = rw (e, k, m) at h in cc)
            ]
      ]
    ]

Sound-one :
    (bots : Bots) (valid : validate_bot_configs bots ≡ none) (c : Config)
    → Sound bots valid c
    → OneCredential c.bot_secret c.bot_token
unfolding Sound
Sound-one bots valid c s = s.1

-- What `LoadForServe` returns either picks the bot of every request, in which case no bot was named
-- and there are several, or can authenticate itself; in both cases at most one of secret and token
-- is set.
pub load_for_serve_authenticates :
    (w : World) (flags : Flags) (c : Config)
    → load_for_serve w flags ≡ ok c
    → (((c.multi_bot ≡ true) × (eqb flags.bot [] ≡ true) × (ltb 1 (length c.bots) ≡ true))
        ⊎ (has_credentials c ≡ true))
      × OneCredential c.bot_secret c.bot_token
unfolding load_for_serve
load_for_serve_authenticates w flags c h =
    let (c1, e1, h1) = >>=-eq-ok (load_layers w flags) _ h in
    let (valid, s1) = load_layers-Sound w flags c1 e1 in
    let one = Sound-one c1.bots valid c1 s1 in
    elim (Bool-cases (eqb flags.bot [] && ltb 1 (length c1.bots) && not (has_credentials c1))) [
      | inl e ↦
          let same = ok-injective (rw e at h1) in
          (
            inl (ap (λ x. x.multi_bot) (sym same), ground arith, rw (← same) (ground arith)),
            subst (λ x. OneCredential x.bot_secret x.bot_token) same one,
          )
      | inr e ↦
          let (same, has) = require_credentials_ok c1 c (rw e at h1) in
          (inr has, subst (λ x. OneCredential x.bot_secret x.bot_token) same one)
    ]

-- What `Load` returns can authenticate, in one way only: it has a host, a bot id, and a secret
-- or a token, but not both.
pub load_authenticates :
    (w : World) (flags : Flags) (c : Config)
    → load w flags ≡ ok c
    → (has_credentials c ≡ true) × OneCredential c.bot_secret c.bot_token
unfolding load
load_authenticates w flags c h =
    let (c1, e1, h1) = >>=-eq-ok (load_layers w flags) _ h in
    let (valid, s1) = load_layers-Sound w flags c1 e1 in
    let (c2, e2, h2) = >>=-eq-ok (pick_bot flags c1) _ h1 in
    let (same, has) = require_credentials_ok c2 c h2 in
    (
      has,
      subst (λ x. OneCredential x.bot_secret x.bot_token) same
          (Sound-one c1.bots valid c2 (pick_bot-Sound c1.bots valid flags c1 c2 s1 e2)),
    )
