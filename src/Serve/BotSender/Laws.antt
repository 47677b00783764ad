-- ===== src/Serve/BotSender/Laws.antt =====
-- How often the sender of a bot sends, and with which token.
use express_send.Common.{
  Option, ◌≡◌, ◌≢◌, ◌↔◌, refl, sym, ap, ◌∙◌, subst, ◌≤◌, ◌+◌, inl, inr, Bool-cases, Result-cases,
  Result, ok, err, ok-injective, [], ◌∷◌, ℕ, arith,
}
use express_send.Text.{Text, eqb}
use express_send.Text.Laws.{eqb_iff, eqb_of_neq}
use express_send.Config.Types.{Config}
use express_send.Config.Secret.{resolve}
use express_send.Server.Types.{SendPayload}
use express_send.Token.Auth.{
  requested, sent_with, delivered, unauthorized_, Machine, refresh_token, CacheKind,
}
use express_send.Token.Auth.Laws.{sends, refresh_token-history, refresh_token_issued}
use express_send.Worker.{SendParams}
use express_send.Worker.Laws.{Answer-cases, confirmations}
use express_send.Serve.BotSender.{
  BotSender, Api, SenderError, Sent, params_of, send_with_sync_id, renew, send_authenticated, send,
}

-- A request that succeeds counts as one.
unfoldable pub delivered_once : Result SenderError Text → ℕ
delivered_once (ok id) = 1
delivered_once (err e) = 0

module _ (api : Api) (sr : SendParams) where
  -- What a step does: at most `k` messages, and a confirmation exactly where it gives no error.
  StepFrom : ℕ → Machine → Sent → Type 0
  StepFrom k m t =
      (sends t.machine.history ≤ k + sends m.history)
      × (confirmations api.send sr t.machine.history
          ≡ delivered_once t.result + confirmations api.send sr m.history)

  send_with_sync_id-StepFrom :
      (token : Text) (m : Machine) → StepFrom 1 m (send_with_sync_id api sr token m)
  unfolding send_with_sync_id StepFrom delivered_once confirmations sends
  send_with_sync_id-StepFrom token m = elim (Answer-cases (api.send m.history token sr)) [
    | inl (id, e) ↦ rw (e, send_with_sync_id, confirmations) (omega arith, rw e refl)
    | inr (inl e) ↦ rw (e, send_with_sync_id, confirmations) (omega arith, rw e refl)
    | inr (inr (why, e)) ↦ rw (e, send_with_sync_id, confirmations) (omega arith, rw e refl)
  ]

  -- A step after a refresh is one from the machine before it.
  from_refreshed :
      (k : ℕ) (c : Config) (cache : Option CacheKind) (m : Machine) (t : Sent)
      → StepFrom k (refresh_token api.botx c cache m).1 t
      → StepFrom k m t
  unfolding StepFrom
  from_refreshed k c cache m t (few, exact) = (
    omega (
      arith,
      few,
      refresh_token-history sends (λ host id h. unfold sends in refl) api.botx c cache m,
    ),
    exact
        ∙ ap (λ n. delivered_once t.result + n)
            (refresh_token-history (confirmations api.send sr)
              (λ host id h. unfold confirmations in refl) api.botx c cache m),
  )

  -- An error without a message.
  idle :
      (k : ℕ) (m : Machine) (e : SenderError) (token : Text)
      → StepFrom k m (record { result = err e; token = token; machine = m })
  unfolding StepFrom delivered_once
  idle k m e token = (omega arith, omega arith)

  renew-StepFrom :
      (c : Config) (cache : Option CacheKind) (token : Text) (m : Machine)
      → StepFrom 1 m (renew api c cache sr token m)
  unfolding renew
  renew-StepFrom c cache token m = elim (Bool-cases (eqb c.bot_token [])) [
    | inr e ↦ rw (e, renew) (idle 1 m _ token)
    | inl e ↦ elim (Result-cases (refresh_token api.botx c cache m).0) [
      | inr (why, k) ↦
          rw (e, k, renew)
            (from_refreshed 1 c cache m _ (idle 1 (refresh_token api.botx c cache m).1 _ token))
      | inl (fresh, k) ↦
          rw (e, k, renew)
            (from_refreshed 1 c cache m _
              (send_with_sync_id-StepFrom fresh (refresh_token api.botx c cache m).1))
    ]
  ]

  -- The machine after a message.
  abbrev after : Text → Machine → Machine
  after token m = record m { history = sent_with token ∷ m.history }

  after_refusal :
      (token : Text) (m : Machine) (t : Sent)
      → api.send m.history token sr ≡ unauthorized_
      → StepFrom 1 (after token m) t
      → StepFrom 2 m t
  unfolding StepFrom confirmations sends
  after_refusal token m t e (few, exact) = (omega (arith, few), exact ∙ rw e (omega arith))

  weaken : (m : Machine) (t : Sent) → StepFrom 1 m t → StepFrom 2 m t
  unfolding StepFrom
  weaken m t (few, exact) = (omega (arith, few), exact)

  sent-machine :
      (token : Text) (m : Machine) → (send_with_sync_id api sr token m).machine ≡ after token m
  unfolding send_with_sync_id
  sent-machine token m = elim (Answer-cases (api.send m.history token sr)) [
    | inl (id, e) ↦ rw (e, send_with_sync_id) refl
    | inr (inl e) ↦ rw (e, send_with_sync_id) refl
    | inr (inr (why, e)) ↦ rw (e, send_with_sync_id) refl
  ]

  -- After a 401, the token is renewed.
  send_authenticated_401 :
      (c : Config) (cache : Option CacheKind) (token : Text) (m : Machine)
      → api.send m.history token sr ≡ unauthorized_
      → send_authenticated api c cache sr token m ≡ renew api c cache sr token (after token m)
  unfolding send_authenticated
  send_authenticated_401 c cache token m e =
      rw (e, send_authenticated) (ap (renew api c cache sr token) (sent-machine token m))

  send_authenticated-StepFrom :
      (c : Config) (cache : Option CacheKind) (token : Text) (m : Machine)
      → StepFrom 2 m (send_authenticated api c cache sr token m)
  send_authenticated-StepFrom c cache token m = elim (Answer-cases (api.send m.history token sr)) [
    | inl (id, e) ↦
        unfold send_authenticated in
        rw (e, send_authenticated) (weaken m _ (send_with_sync_id-StepFrom token m))
    | inr (inl e) ↦
        subst (StepFrom 2 m) (sym (send_authenticated_401 c cache token m e))
          (after_refusal token m _ e (renew-StepFrom c cache token (after token m)))
    | inr (inr (why, e)) ↦
        unfold send_authenticated in
        rw (e, send_authenticated) (weaken m _ (send_with_sync_id-StepFrom token m))
  ]

  sent-token : (token : Text) (m : Machine) → (send_with_sync_id api sr token m).token ≡ token
  unfolding send_with_sync_id
  sent-token token m = elim (Answer-cases (api.send m.history token sr)) [
    | inl (id, e) ↦ rw (e, send_with_sync_id) refl
    | inr (inl e) ↦ rw (e, send_with_sync_id) refl
    | inr (inr (why, e)) ↦ rw (e, send_with_sync_id) refl
  ]

  -- The result is a sync id exactly where the API gives it.
  sent_iff :
      (token : Text) (m : Machine) (id : Text)
      → ((send_with_sync_id api sr token m).result ≡ ok id)
        ↔ (api.send m.history token sr ≡ delivered id)
  unfolding send_with_sync_id
  sent_iff token m id = (
    λ h. elim (Answer-cases (api.send m.history token sr)) [
      | inl (t, e) ↦ e ∙ ap delivered (ok-injective (rw (e, send_with_sync_id) at h))
      | inr (inl e) ↦ absurd (let bad = rw (e, send_with_sync_id) at h in cc)
      | inr (inr (why, e)) ↦ absurd (let bad = rw (e, send_with_sync_id) at h in cc)
    ],
    λ e. rw (e, send_with_sync_id) refl,
  )

module _ (api : Api) (bs : BotSender) (p : SendPayload) where
  send-StepFrom : (m : Machine) → StepFrom api (params_of api p) 2 m (send api bs p m)
  unfolding send
  send-StepFrom m = elim (Bool-cases (eqb bs.token [])) [
    | inr e ↦
        rw (e, send) (send_authenticated-StepFrom api (params_of api p) bs.cfg bs.cache bs.token m)
    | inl e ↦ elim (Result-cases (refresh_token api.botx bs.cfg bs.cache m).0) [
      | inr (why, k) ↦
          rw (e, k, send)
            (from_refreshed api (params_of api p) 2 bs.cfg bs.cache m _ (
              idle api (params_of api p) 2 (refresh_token api.botx bs.cfg bs.cache m).1 _ bs.token))
      | inl (fresh, k) ↦
          rw (e, k, send)
            (from_refreshed api (params_of api p) 2 bs.cfg bs.cache m _ (
              send_authenticated-StepFrom api (params_of api p) bs.cfg bs.cache fresh
                (refresh_token api.botx bs.cfg bs.cache m).1))
    ]
  ]

  -- A `Send` sends the message at most twice, and the API confirms it once more where `Send` gives no
  -- error, and never where it gives one.
  pub confirmations-send :
      (m : Machine)
      → (sends (send api bs p m).machine.history ≤ 2 + sends m.history)
        × (confirmations api.send (params_of api p) (send api bs p m).machine.history
            ≡ delivered_once (send api bs p m).result
              + confirmations api.send (params_of api p) m.history)
  unfolding StepFrom
  confirmations-send m = send-StepFrom m

module _ (api : Api) (bs : BotSender) (p : SendPayload) (m : Machine) (secret fresh : Text)
    (held : bs.token ≢ []) (dynamic : bs.cfg.bot_token ≡ [])
    (known : resolve api.botx.getenv api.botx.read_vault bs.cfg.bot_secret ≡ ok secret)
    (refused : api.send m.history bs.token (params_of api p) ≡ unauthorized_)
    (issued : api.botx.issue
        (sent_with bs.token ∷ m.history)
        bs.cfg.host
        bs.cfg.bot_id
        (api.botx.build_signature bs.cfg.bot_id secret)
      ≡ ok fresh) where
  -- The machine on which the message is sent again.
  abbrev renewed : Machine
  renewed = (refresh_token api.botx bs.cfg bs.cache (after api (params_of api p) bs.token m)).1

  send-renewed : send api bs p m ≡ send_with_sync_id api (params_of api p) fresh renewed
  send-renewed =
      let sr = params_of api p in
      let m1 = after api sr bs.token m in
      let (answer, _) =
        refresh_token_issued api.botx bs.cfg bs.cache m1 secret fresh known issued in
      let direct : send api bs p m ≡ send_authenticated api bs.cfg bs.cache sr bs.token m =
        unfold send in rw (eqb_of_neq bs.token [] held, send) refl in
      let again : renew api bs.cfg bs.cache sr bs.token m1
          ≡ send_with_sync_id api sr fresh renewed =
        unfold renew in rw ((eqb_iff bs.cfg.bot_token []).1 dynamic, answer, renew) refl in
      direct ∙ send_authenticated_401 api sr bs.cfg bs.cache bs.token m refused ∙ again

  -- Where the API refuses the token of a bot without a static one and issues another, the message is sent
  -- again with the new token, which the client keeps, whatever the cache holds; the result is success
  -- exactly where the API confirms it then.
  pub send_renews :
      (send api bs p m).token ≡ fresh
      × ((send api bs p m).machine.history
          ≡ sent_with fresh ∷ requested bs.cfg.host bs.cfg.bot_id ∷ sent_with bs.token ∷ m.history)
      × ((id : Text)
          → ((send api bs p m).result ≡ ok id) ↔ (
              api.send
                (requested bs.cfg.host bs.cfg.bot_id ∷ sent_with bs.token ∷ m.history)
                fresh
                (params_of api p)
              ≡ delivered id))
  send_renews =
      let sr = params_of api p in
      let m1 = after api sr bs.token m in
      let (_, history) =
        refresh_token_issued api.botx bs.cfg bs.cache m1 secret fresh known issued in
      (
        ap (λ (t : Sent). t.token) send-renewed ∙ sent-token api sr fresh renewed,
        ap (λ (t : Sent). t.machine.history) send-renewed
            ∙ ap (λ (n : Machine). n.history) (sent-machine api sr fresh renewed)
            ∙ ap (λ h. sent_with fresh ∷ h) history,
        λ id.
            let (to, from) = sent_iff api sr fresh renewed id in
            let result = ap (λ (t : Sent). t.result) send-renewed in
            let answer = ap (λ h. api.send h fresh sr) history in
            (λ h. sym answer ∙ to (sym result ∙ h), λ h. result ∙ from (answer ∙ h)),
      )
