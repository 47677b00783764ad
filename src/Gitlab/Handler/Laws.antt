-- ===== src/Gitlab/Handler/Laws.antt =====
-- Who authenticates a GitLab webhook, and which chats its event can reach.
use express_send.Common.{
  true, ◌&&◌, not, none, some, List, [], ◌∷◌, ◌≡◌, ◌≢◌, ◌↔◌, ◌⊎◌, inl, inr, refl, sym, ap, ◌∙◌,
  subst, arith, Result, ok, Bool-cases, Option-cases, Result-cases, All, eq_of_some, ok-injective,
}
use express_send.Text.{Text, eqb, contains, lookup, is_some}
use express_send.Text.Laws.{eqb_iff, eqb_refl}
use express_send.Server.Types.{ChatResult}
use express_send.Gitlab.Handler.{
  GitlabTarget, GitlabSender, conflicts, match_senders, resolve_gitlab_auth, canonical_chat,
  scope_entry, scope_targets_from, sender_scope_targets,
}

-- With a token, the test on empty secrets adds nothing to the comparison.
hits :
    (token secret : Text)
    → token ≢ []
    → (not (eqb secret []) && eqb token secret) ≡ eqb token secret
hits token secret ne = ground (arith, eqb_iff secret [], eqb_iff token secret)

-- The first sender of a list whose secret is the token.
module _ {Regexp Template : Type 0} where
  pub data FirstWith (token : Text)
      : List (GitlabSender Regexp Template) → GitlabSender Regexp Template → Type 0 where
    here :
        {s : GitlabSender Regexp Template} {ss : List (GitlabSender Regexp Template)}
        → s.secret ≡ token
        → FirstWith token (s ∷ ss) s
    later :
        {x s : GitlabSender Regexp Template} {ss : List (GitlabSender Regexp Template)}
        → x.secret ≢ token
        → FirstWith token ss s
        → FirstWith token (x ∷ ss) s

  match_senders-some :
      (token : Text) (s : GitlabSender Regexp Template) (ss : List (GitlabSender Regexp Template))
      → match_senders token (some s) ss ≡ some s
  unfolding match_senders
  match_senders-some token s [] = refl
  match_senders-some token s (x ∷ ss) = ground (arith, match_senders-some token s ss)

  match_senders_sound :
      (token : Text) (ss : List (GitlabSender Regexp Template)) (s : GitlabSender Regexp Template)
      → token ≢ []
      → match_senders token none ss ≡ some s
      → FirstWith token ss s
  unfolding match_senders
  match_senders_sound token [] s ne h = cc
  match_senders_sound token (x ∷ ss) s ne h = elim (Bool-cases (eqb token x.secret)) [
    | inl same ↦
        let first = eq_of_some (
          sym (match_senders-some token x ss)
          ∙ (rw same at (rw (hits token x.secret ne, match_senders) at h))) in
        subst (FirstWith token (x ∷ ss)) first (here (sym ((eqb_iff token x.secret).0 same)))
    | inr other ↦
        later (λ e. let t = (eqb_iff token x.secret).1 (sym e) in cc)
          (match_senders_sound token ss s ne
            (rw other at (rw (hits token x.secret ne, match_senders) at h)))
  ]

  match_senders_complete :
      (token : Text) {ss : List (GitlabSender Regexp Template)} {s : GitlabSender Regexp Template}
      → token ≢ []
      → FirstWith token ss s
      → match_senders token none ss ≡ some s
  unfolding match_senders
  match_senders_complete token ne (here {s} {ss} same) =
      rw (hits token s.secret ne, (eqb_iff token s.secret).1 (sym same), match_senders)
        (match_senders-some token s ss)
  match_senders_complete token ne (later {x} {s} {ss} other f) =
      elim (Bool-cases (eqb token x.secret)) [
        | inl same ↦ absurd (other (sym ((eqb_iff token x.secret).0 same)))
        | inr miss ↦
            rw (hits token x.secret ne, miss, match_senders) (match_senders_complete token ne f)
      ]

  -- A token authenticates a sender exactly when it is not empty and the sender is the first whose
  -- secret it is; so an empty secret authenticates nobody.
  pub resolve_gitlab_auth_iff :
      (senders : List (GitlabSender Regexp Template)) (token : Text)
      (s : GitlabSender Regexp Template)
      → (resolve_gitlab_auth senders token ≡ some s) ↔ ((token ≢ []) × FirstWith token senders s)
  unfolding resolve_gitlab_auth
  resolve_gitlab_auth_iff senders token s = elim (Bool-cases (eqb token [])) [
    | inl empty ↦
        rw (empty, resolve_gitlab_auth)
          (λ h. absurd cc, λ (ne, f). absurd (ne ((eqb_iff token []).0 empty)))
    | inr full ↦
        let ne : token ≢ [] = λ e. let t = (eqb_iff token []).1 e in cc in
        rw (full, resolve_gitlab_auth)
          (
            λ h. (ne, match_senders_sound token senders s ne h),
            λ (_, f). match_senders_complete token ne f,
          )
  ]

contains_first : (a : Text) (xs : List Text) → contains a (a ∷ xs) ≡ true
unfolding contains
contains_first a xs = rw (eqb_refl a) refl

-- A delivery target of a scope.
abbrev pub IsScopeTarget : List (Text × GitlabTarget) → Text → Type 0
IsScopeTarget scope t =
    (canonical : Text) × (entry : GitlabTarget) × (lookup canonical scope ≡ some entry)
    × (t ≡ entry.target)

-- A requested chat stands for an entry of the scope: by its canonical id, or by resolving to it.
pub data StandsFor (chats : Text → Result Text ChatResult) (scope : List (Text × GitlabTarget))
    (raw : Text) (canonical : Text) (entry : GitlabTarget) : Type 0 where
  canonical_id :
      raw ≡ canonical
      → lookup canonical scope ≡ some entry
      → StandsFor chats scope raw canonical entry
  resolved :
      (found : ChatResult)
      → chats raw ≡ ok found
      → found.chat_id ≡ canonical
      → lookup canonical scope ≡ some entry
      → StandsFor chats scope raw canonical entry

module _ (chats : Text → Result Text ChatResult) (scope : List (Text × GitlabTarget)) where
  -- Where a canonical id comes from.
  canonical_chat_sound :
      (raw canonical bot : Text)
      → canonical_chat chats scope raw ≡ ok (canonical, bot)
      → (raw ≡ canonical)
        ⊎ ((found : ChatResult) × (chats raw ≡ ok found) × (found.chat_id ≡ canonical))
  unfolding canonical_chat
  canonical_chat_sound raw canonical bot h = elim (Bool-cases (is_some (lookup raw scope))) [
    | inl known ↦ inl (ap (λ p. p.0) (ok-injective (rw (known, canonical_chat) at h)))
    | inr new ↦ elim (Result-cases (chats raw)) [
      | inr (why, e) ↦ absurd (let bad = rw (new, e, canonical_chat) at h in cc)
      | inl (found, e) ↦ elim (Bool-cases (eqb found.chat_id [])) [
        | inl empty ↦ absurd (let bad = rw (new, e, empty, canonical_chat) at h in cc)
        | inr full ↦
            inr (found, e, ap (λ p. p.0) (ok-injective (rw (new, e, full, canonical_chat) at h)))
      ]
    ]
  ]

  scope_entry_sound :
      (raw canonical : Text) (entry : GitlabTarget)
      → scope_entry chats scope raw ≡ ok (canonical, entry)
      → StandsFor chats scope raw canonical entry
  unfolding scope_entry
  scope_entry_sound raw canonical entry h = elim (Result-cases (canonical_chat chats scope raw)) [
    | inr (why, e) ↦ absurd (let bad = rw (e, scope_entry) at h in cc)
    | inl ((c, bot), e) ↦ elim (Option-cases (lookup c scope)) [
      | inl e' ↦ absurd (let bad = rw (e, e', scope_entry) at h in cc)
      | inr (t, e') ↦ elim (Bool-cases (conflicts t raw bot)) [
        | inl clash ↦ absurd (let bad = rw (e, e', clash, scope_entry) at h in cc)
        | inr fine ↦
            let same = ok-injective (rw (e, e', fine, scope_entry) at h) in
            let c_is : c ≡ canonical = ap (λ p. p.0) same in
            let found : lookup canonical scope ≡ some entry =
              (rw c_is at e') ∙ ap some (ap (λ p. p.1) same) in
            elim (canonical_chat_sound raw c bot e) [
              | inl id ↦ canonical_id (id ∙ c_is) found
              | inr (r, er, ec) ↦ resolved r er (ec ∙ c_is) found
            ]
      ]
    ]
  ]

  -- What a selection gives for a requested chat: its entry is among the targets, or its chat
  -- has been seen before.
  abbrev pub Covered : List Text → List Text → Text → Type 0
  Covered seen targets raw =
      (canonical : Text) × (entry : GitlabTarget) × StandsFor chats scope raw canonical entry
      × ((contains canonical seen ≡ true) ⊎ (contains entry.target targets ≡ true))

  StandsFor-lookup :
      {raw canonical : Text} {entry : GitlabTarget}
      → StandsFor chats scope raw canonical entry
      → lookup canonical scope ≡ some entry
  StandsFor-lookup (canonical_id _ found) = found
  StandsFor-lookup (resolved _ _ _ found) = found

  -- The coverage of the rest of a request, once the chat at its head is a target.
  widen :
      (c : Text) (t : GitlabTarget) (seen ts : List Text) (raw : Text)
      → lookup c scope ≡ some t
      → Covered (c ∷ seen) ts raw
      → Covered seen (t.target ∷ ts) raw
  unfolding contains
  widen c t seen ts raw found (canonical, entry, stands, inr in_rest) =
      (canonical, entry, stands, inr (ground arith))
  widen c t seen ts raw found (canonical, entry, stands, inl seen_) =
      elim (Bool-cases (eqb c canonical)) [
        | inl same ↦
            let at : lookup canonical scope ≡ some t =
              rw (sym ((eqb_iff c canonical).0 same)) found in
            let entries : t ≡ entry = eq_of_some (sym at ∙ StandsFor-lookup stands) in
            (
              canonical,
              entry,
              stands,
              inr (rw (ap (λ (e : GitlabTarget). e.target) entries, eqb_refl entry.target) refl),
            )
        | inr other ↦ (canonical, entry, stands, inl (ground arith))
      ]

  widen-All :
      (c : Text) (t : GitlabTarget) (seen ts requested : List Text)
      → lookup c scope ≡ some t
      → All (Covered (c ∷ seen) ts) requested
      → All (Covered seen (t.target ∷ ts)) requested
  widen-All c t seen ts [] found h = tt
  widen-All c t seen ts (raw ∷ requested) found (p, h) =
      (widen c t seen ts raw found p, widen-All c t seen ts requested found h)

  scope_targets_from-Covered :
      (requested seen targets : List Text)
      → scope_targets_from chats scope seen requested ≡ ok targets
      → All (Covered seen targets) requested × All (IsScopeTarget scope) targets
  unfolding scope_targets_from
  scope_targets_from-Covered [] seen targets h = rw (sym (ok-injective h)) (tt, tt)
  scope_targets_from-Covered (raw ∷ requested) seen targets h =
      elim (Result-cases (scope_entry chats scope raw)) [
        | inr (why, e) ↦ absurd (let bad = rw (e, scope_targets_from) at h in cc)
        | inl ((c, t), e) ↦
            let stands = scope_entry_sound raw c t e in
            let found = StandsFor-lookup stands in
            elim (Bool-cases (contains c seen)) [
              | inl old ↦
                  let (covers, inside) =
                    scope_targets_from-Covered requested seen targets
                      (rw (e, old, scope_targets_from) at h) in
                  (((c, t, stands, inl old), covers), inside)
              | inr new ↦
                  elim (Result-cases (scope_targets_from chats scope (c ∷ seen) requested)) [
                    | inr (why, e') ↦
                        absurd (let bad = rw (e, new, e', scope_targets_from) at h in cc)
                    | inl (ts, e') ↦
                        let (covers, inside) =
                          scope_targets_from-Covered requested (c ∷ seen) ts e' in
                        let same : t.target ∷ ts ≡ targets =
                          ok-injective (rw (e, new, e', scope_targets_from) at h) in
                        let head : Covered seen (t.target ∷ ts) raw =
                          (c, t, stands, inr (contains_first t.target ts)) in
                        subst
                          (λ x.
                            All (Covered seen x) (raw ∷ requested) × All (IsScopeTarget scope) x)
                          same
                          (
                            (head, widen-All c t seen ts requested found covers),
                            ((c, t, found, refl), inside),
                          )
                  ]
            ]
      ]

  -- A selection that a sender's scope admits gives delivery targets of that scope only, and every
  -- requested chat stands for an entry of the scope whose delivery target is among them.
  pub sender_scope_targets-Covered :
      (requested targets : List Text)
      → sender_scope_targets chats requested scope ≡ ok targets
      → All (Covered [] targets) requested × All (IsScopeTarget scope) targets
  unfolding sender_scope_targets
  sender_scope_targets-Covered requested targets h =
      scope_targets_from-Covered requested [] targets h
