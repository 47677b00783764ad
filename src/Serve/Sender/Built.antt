-- ===== src/Serve/Sender/Built.antt =====
-- The senders that a configuration yields, and what the webhook does with them.
use express_send.Common.{
  ◌≡◌, ◌≢◌, refl, subst, inl, inr, Bool-cases, Option-cases, Result-cases, >>=-eq-ok, ok-injective,
  true, none, some, Option, List, [], ◌∷◌, All, Result, ok, ℕ, suc, ◌+◌, Bool,
}
use express_send.Text.{Text, eqb, lookup}
use express_send.Text.Laws.{neq_of_eqb}
use express_send.Text.Sort.{sort_keys}
use express_send.Config.Chats.{Chats}
use express_send.Config.Gitlab.{GitlabSenderConfig, validate_for_serve}
use express_send.Server.Types.{Context}
use express_send.Server.MultiSend.{Pipeline}
use express_send.Gitlab.Payload.{Fields, GitlabView}
use express_send.Gitlab.Route.{CompiledRoute}
use express_send.Gitlab.Route.Compile.{
  GitlabRoute, compile_conds, compile_from, compile_gitlab_routes,
}
use express_send.Gitlab.Handler.{GitlabSender, GitlabRequest, resolve_gitlab_auth, handle_gitlab}
use express_send.Gitlab.Handler.Laws.{
  IsScopeTarget, FirstWith, here, later, resolve_gitlab_auth_iff,
}
use express_send.Gitlab.Handler.Scope.{Consistent, Addressed, handle_gitlab-Addressed}
use express_send.Serve.Sender.{
  build_scope, overlay_files, compile_routes, resolve_sender_secret, build_gitlab_sender,
  build_senders, build_gitlab_config,
}
use express_send.Serve.Sender.Templates.{parse_gitlab_templates}
use express_send.Serve.Sender.Laws.{All-mono, RuleWith, Good, build_scope-Good}

-- Compiling rules keeps their chats.
compile_from-chats :
    {Regexp : Type 0} (compile_regexp : Text → Option Regexp) (P : Text → Type 0) (i : ℕ)
    (routes : List GitlabRoute) (rs : List (CompiledRoute Regexp))
    → compile_from compile_regexp i routes ≡ ok rs
    → All (RuleWith P) routes
    → All (λ (r : CompiledRoute Regexp). All P r.chats) rs
unfolding compile_from
compile_from-chats {Regexp} compile_regexp P i [] rs h k =
    subst (All (λ (r : CompiledRoute Regexp). All P r.chats)) (ok-injective h) tt
compile_from-chats {Regexp} compile_regexp P i (r ∷ routes) rs h (at_r, k) =
    let (cs, e1, h1) = >>=-eq-ok (compile_conds compile_regexp i (sort_keys r.match)) _ h in
    let (rest, e2, h2) = >>=-eq-ok (compile_from compile_regexp (i + 1) routes) _ h1 in
    subst (All (λ (r : CompiledRoute Regexp). All P r.chats)) (ok-injective h2)
      (at_r, compile_from-chats compile_regexp P (i + 1) routes rest e2 k)

resolve_sender_secret_nonempty :
    (resolve : Text → Result Text Text) (secret v : Text)
    → resolve_sender_secret resolve secret ≡ ok v
    → v ≢ []
unfolding resolve_sender_secret
resolve_sender_secret_nonempty resolve secret v h = elim (Result-cases (resolve secret)) [
  | inr (why, e) ↦ absurd (let bad = rw (e, resolve_sender_secret) at h in cc)
  | inl (s, e) ↦ elim (Bool-cases (eqb s [])) [
    | inl k ↦ absurd (let bad = rw (e, k, resolve_sender_secret) at h in cc)
    | inr k ↦
        subst (λ x. x ≢ []) (ok-injective (rw (e, k, resolve_sender_secret) at h))
          (neq_of_eqb s [] k)
  ]
]

lookup_miss :
    (k k' v : Text) (m : List (Text × Text))
    → lookup k' ((k, v) ∷ m) ≡ none
    → (k ≢ k') × (lookup k' m ≡ none)
unfolding lookup
lookup_miss k k' v m h = elim (Bool-cases (eqb k k')) [
  | inl e ↦ absurd (let bad = rw e at h in cc)
  | inr e ↦ (neq_of_eqb k k' e, rw e at h)
]

All-both :
    {A : Type 0} (P Q R : A → Type 0) (xs : List A)
    → ((x : A) → P x → Q x → R x)
    → All P xs
    → All Q xs
    → All R xs
All-both P Q R [] f h k = tt
All-both P Q R (x ∷ xs) f (p, h) (q, k) = (f x p q, All-both P Q R xs f h k)

module _ {Regexp Template : Type 0} where
  -- No two senders share a secret.
  pub Apart : List (GitlabSender Regexp Template) → Type 0
  Apart [] = Unit
  Apart (s ∷ ss) = All (λ x. s.secret ≢ x.secret) ss × Apart ss

  Apart-FirstWith :
      (ss : List (GitlabSender Regexp Template)) → Apart ss → All (λ s. FirstWith s.secret ss s) ss
  unfolding Apart
  Apart-FirstWith [] h = tt
  Apart-FirstWith (s ∷ ss) (others, h) = (
    here refl,
    All-both (λ x. s.secret ≢ x.secret) (λ x. FirstWith x.secret ss x)
        (λ x. FirstWith x.secret (s ∷ ss) x) ss (λ x ne first. later ne first) others
        (Apart-FirstWith ss h),
  )

  FirstWith-All :
      (P : GitlabSender Regexp Template → Type 0) {token : Text}
      {ss : List (GitlabSender Regexp Template)} {s : GitlabSender Regexp Template}
      → FirstWith token ss s
      → All P ss
      → P s
  FirstWith-All P (here _) h = h.0
  FirstWith-All P (later _ first) h = FirstWith-All P first h.1

module _ {Regexp Template : Type 0} (compile_regexp : Text → Option Regexp)
    (parse : Text → Text → Result Text Template) (defaults : List (Text × Text))
    (resolve read : Text → Result Text Text) (chats : Chats) (multi_bot : Bool) where
  -- What the handler may rely on.
  pub record Built (s : GitlabSender Regexp Template) : Type 0 where
    pub consistent : Consistent s
    pub bound : multi_bot ≡ true → All (λ e. e.1.bot ≢ []) s.scope
    pub with_secret : s.secret ≢ []

  compile_routes-chats :
      (P : Text → Type 0) (routes : List GitlabRoute) (rs : List (CompiledRoute Regexp))
      → compile_routes compile_regexp parse defaults resolve read chats multi_bot routes ≡ ok rs
      → All (RuleWith P) routes
      → All (λ (r : CompiledRoute Regexp). All P r.chats) rs
  unfolding compile_routes compile_gitlab_routes
  compile_routes-chats P routes rs h k =
      elim (Result-cases (compile_gitlab_routes compile_regexp routes)) [
        | inr (why, e) ↦ absurd (let bad = rw (e, compile_routes) at h in cc)
        | inl (x, e) ↦
            subst (All (λ (r : CompiledRoute Regexp). All P r.chats))
              (ok-injective (rw (e, compile_routes) at h))
              (compile_from-chats compile_regexp P 0 routes x e k)
      ]

  build_gitlab_sender-Built :
      (sn : GitlabSenderConfig) (label : Text) (s : GitlabSender Regexp Template)
      → build_gitlab_sender compile_regexp parse defaults resolve read chats multi_bot sn label
        ≡ ok s
      → Built s
  unfolding build_gitlab_sender Good
  build_gitlab_sender-Built sn label s h =
      let (built, e1, h1) = >>=-eq-ok (build_scope chats multi_bot sn) _ h in
      let ((inside, bots), rules) = build_scope-Good chats multi_bot sn built e1 in
      let (inline, e2, h2) = >>=-eq-ok (overlay_files read sn.templates sn.template_files) _ h1 in
      elim (Result-cases (parse_gitlab_templates parse defaults inline)) [
        | inr (why, e) ↦ absurd (let bad = rw e at h2 in cc)
        | inl (templates, e) ↦
            let (routes, e3, h3) =
              >>=-eq-ok
                (compile_routes compile_regexp parse defaults resolve read chats multi_bot built.1)
                _ (rw e at h2) in
            let (secret, e4, h4) = >>=-eq-ok (resolve_sender_secret resolve sn.secret) _ h3 in
            subst Built (ok-injective h4) (record {
              consistent = record {
                targets_in = inside;
                routes_in =
                    compile_routes-chats (IsScopeTarget built.0.scope) built.1 routes e3 rules;
              };
              bound = bots;
              with_secret = resolve_sender_secret_nonempty resolve sn.secret secret e4;
            })
      ]

  -- The senders of a configuration, with the secrets seen before.
  build_senders-Built :
      (label : ℕ → Text → Text) (i : ℕ) (seen : List (Text × Text)) (sns : List GitlabSenderConfig)
      (ss : List (GitlabSender Regexp Template))
      → build_senders compile_regexp parse defaults resolve read chats multi_bot label i seen sns
        ≡ ok ss
      → All Built ss × All (λ s. lookup s.secret seen ≡ none) ss × Apart ss
  unfolding build_senders Apart
  build_senders-Built label i seen [] ss h =
      subst (λ x. All Built x × All (λ s. lookup s.secret seen ≡ none) x × Apart x) (ok-injective h)
        (tt, tt, tt)
  build_senders-Built label i seen (sn ∷ sns) ss h =
      let (s, e1, h1) =
        >>=-eq-ok
          (build_gitlab_sender compile_regexp parse defaults resolve read chats multi_bot sn
            (label i sn.name))
          _ h in
      elim (Option-cases (lookup s.secret seen)) [
        | inr (owner, e) ↦ absurd (let bad = rw e at h1 in cc)
        | inl e ↦
            let (rest, e2, h2) =
              >>=-eq-ok
                (build_senders compile_regexp parse defaults resolve read chats multi_bot label
                  (suc i) ((s.secret, label i sn.name) ∷ seen) sns)
                _ (rw e at h1) in
            let (good, free, apart) =
              build_senders-Built label (suc i) ((s.secret, label i sn.name) ∷ seen) sns rest e2 in
            subst (λ x. All Built x × All (λ s. lookup s.secret seen ≡ none) x × Apart x)
              (ok-injective h2)
              (
                (build_gitlab_sender-Built sn (label i sn.name) s e1, good),
                (
                  e,
                  All-mono (λ x. lookup x.secret ((s.secret, label i sn.name) ∷ seen) ≡ none)
                      (λ x. lookup x.secret seen ≡ none) rest
                      (λ x k. (lookup_miss s.secret x.secret (label i sn.name) seen k).1) free,
                ),
                (
                  All-mono (λ x. lookup x.secret ((s.secret, label i sn.name) ∷ seen) ≡ none)
                      (λ x. s.secret ≢ x.secret) rest
                      (λ x k. (lookup_miss s.secret x.secret (label i sn.name) seen k).0) free,
                  apart,
                ),
              )
      ]

  build_gitlab_config-Built :
      (label : ℕ → Text → Text) (sns : List GitlabSenderConfig)
      (ss : List (GitlabSender Regexp Template))
      → build_gitlab_config compile_regexp parse defaults resolve read chats multi_bot label sns
        ≡ ok ss
      → All Built ss × Apart ss
  unfolding build_gitlab_config
  build_gitlab_config-Built label sns ss h =
      elim (Option-cases (validate_for_serve compile_regexp sns)) [
        | inr (p, e) ↦ absurd (let bad = rw (e, build_gitlab_config) at h in cc)
        | inl e ↦
            let (good, _, apart) =
              build_senders-Built label 0 [] sns ss (rw (e, build_gitlab_config) at h) in
            (good, apart)
      ]

  -- The server starts only with senders that are told apart by their tokens: each sender that a
  -- configuration yields is the one that its secret authenticates, its targets and the chats of its
  -- rules are delivery targets of its scope, and with several bots every chat of its scope is bound to one.
  pub build_gitlab_config-authenticates :
      (label : ℕ → Text → Text) (sns : List GitlabSenderConfig)
      (ss : List (GitlabSender Regexp Template))
      → build_gitlab_config compile_regexp parse defaults resolve read chats multi_bot label sns
        ≡ ok ss
      → All (λ s. (resolve_gitlab_auth ss s.secret ≡ some s) × Built s) ss
  build_gitlab_config-authenticates label sns ss h =
      let (good, apart) = build_gitlab_config-Built label sns ss h in
      All-both (λ s. FirstWith s.secret ss s) Built
        (λ s. (resolve_gitlab_auth ss s.secret ≡ some s) × Built s) ss
        (λ s first b. ((resolve_gitlab_auth_iff ss s.secret s).1 (b.with_secret, first), b))
        (Apart-FirstWith ss apart) good

  -- An event that is let in with the senders of a configuration reaches only chats that delivery
  -- targets in the scope of its sender resolve to, whatever ?chat_id, the rules and the payload say.
  pub build_gitlab_config-Addressed :
      (match_string : Regexp → Text → Bool) (execute : Template → GitlabView → Result Text Text)
      (decode : Text → Result Text Fields) (pipe : Pipeline) (ctx : Context)
      (label : ℕ → Text → Text) (sns : List GitlabSenderConfig)
      (ss : List (GitlabSender Regexp Template)) (r : GitlabRequest)
      (s : GitlabSender Regexp Template)
      → build_gitlab_config compile_regexp parse defaults resolve read chats multi_bot label sns
        ≡ ok ss
      → resolve_gitlab_auth ss r.token ≡ some s
      → All
          (Addressed pipe.chats s.scope)
          (handle_gitlab match_string execute decode pipe ctx (some ss) r []).1
  build_gitlab_config-Addressed match_string execute decode pipe ctx label sns ss r s h who =
      let (good, apart) = build_gitlab_config-Built label sns ss h in
      let (ne, first) = (resolve_gitlab_auth_iff ss r.token s).0 who in
      handle_gitlab-Addressed match_string execute decode pipe ctx ss r s ne first
        (FirstWith-All Built first good).consistent
