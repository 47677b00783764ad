-- ===== src/Worker/Laws/Recovery.antt =====
-- When the loop succeeds, and when it cannot.
use express_send.Common.{
  ◌≡◌, ◌≢◌, refl, sym, ap, ◌∙◌, subst, ◌≤◌, ◌<◌, ◌+◌, inl, inr, Bool-cases, false, ltb, leb, ◌&&◌,
  ok, err, Result, [], ◌∷◌, ℕ, zero, suc, arith,
}
use express_send.Text.{Text}
use express_send.Text.Laws.{eqb_iff, eqb_of_neq}
use express_send.Config.Types.{Config}
use express_send.Config.Bots.{cache_key}
use express_send.Config.Secret.{resolve}
use express_send.Token.Auth.{
  sent_with, History, delivered, unauthorized_, failed, Machine, new_cache, cache_get, authenticate,
}
use express_send.Token.Auth.Laws.{sends}
use express_send.Worker.{
  SendParams, Runner, Tried, WorkError, sending, ended, stop, again, finished, Sending,
  persistent_401, send_again, after_401, send_once, attempt, send_loop, sent,
}

module _ (w : Runner) (sr : SendParams) (name : Text) (c : Config) (token : Text)
    (held : token ≢ []) (running : (i : ℕ) → w.cancelled i ≡ false) where
  attempt_held : (m : Machine) → attempt w sr name c token m ≡ send_once w sr name c token m
  unfolding attempt
  attempt_held m = rw (eqb_of_neq token [] held, attempt) refl

  no_wait : (i : ℕ) → (ltb 0 i && w.cancelled i) ≡ false
  no_wait i = ground (arith, running i)

  -- The last attempt, and one that others may follow.
  stops :
      (left i : ℕ) (m : Machine) (r : Result WorkError Text)
      → (attempt w sr name c token m).outcome ≡ stop r
      → send_loop w sr name c left i token m
        ≡ ended w sr name c (finished r) (attempt w sr name c token m)
  unfolding send_loop
  stops zero i m r e = rw (no_wait i, e, send_loop) refl
  stops (suc left) i m r e = rw (no_wait i, e, send_loop) refl

  goes_on :
      (left i : ℕ) (m : Machine) (e : WorkError)
      → (attempt w sr name c token m).outcome ≡ again e
      → send_loop w sr name c (suc left) i token m
        ≡ send_loop w sr name c left
            (suc i)
            (attempt w sr name c token m).token
            (attempt w sr name c token m).machine
  unfolding send_loop
  goes_on left i m e same = rw (no_wait i, same, send_loop) refl

  module _ (id : Text) (k : ℕ)
      (down : (h : History) → sends h < k → (why : Text) × (w.send h token sr ≡ failed why))
      (up : (h : History) → k ≤ sends h → w.send h token sr ≡ delivered id) where
    accepted :
        (m : Machine) → k ≤ sends m.history → (send_once w sr name c token m).outcome ≡ stop (ok id)
    unfolding send_once
    accepted m h = rw (up m.history h, send_once) refl

    succeeds :
        (m : Machine) → k ≤ sends m.history → (attempt w sr name c token m).outcome ≡ stop (ok id)
    succeeds m h = ap (λ (t : Tried). t.outcome) (attempt_held m) ∙ accepted m h

    missed :
        (m : Machine)
        → sends m.history < k
        → (why : Text) × (attempt w sr name c token m ≡ record {
          outcome = again (sending why);
          token = token;
          machine = sent w sr name c token m;
        })
    missed m h =
        let (why, e) = down m.history h in
        (why, attempt_held m ∙ (unfold send_once in rw (e, send_once) refl))

    -- Where the client holds a token, no wait is interrupted, and the API answers every send before the
    -- k-th with an error other than 401 and confirms every later one, the message is sent, as long as the
    -- attempts that are left reach it.
    pub send_loop_recovers :
        (left i : ℕ) (m : Machine)
        → k ≤ sends m.history + left
        → (send_loop w sr name c left i token m).result ≡ finished (ok id)
    send_loop_recovers zero i m reach =
        ap (λ (s : Sending). s.result) (stops zero i m (ok id) (succeeds m (omega (arith, reach))))
    send_loop_recovers (suc left) i m reach = elim (Bool-cases (leb k (sends m.history))) [
      | inl e ↦
          ap (λ (s : Sending). s.result) (stops (suc left) i m (ok id) (succeeds m (ground arith)))
      | inr e ↦
          let (why, tried) = missed m (ground arith) in
          ap (λ (s : Sending). s.result)
            (goes_on left i m (sending why) (ap (λ (t : Tried). t.outcome) tried))
          ∙ ap (λ (t : Tried). (send_loop w sr name c left (suc i) t.token t.machine).result) tried
          ∙ send_loop_recovers left (suc i) (sent w sr name c token m)
              (unfold sends in omega (arith, reach))
    ]

  authenticate_cached :
      (secret : Text) (m : Machine)
      → c.bot_token ≡ []
      → resolve w.botx.getenv w.botx.read_vault c.bot_secret ≡ ok secret
      → cache_get w.botx (new_cache c.cache) (cache_key c) m ≡ token
      → authenticate w.botx c m ≡ (ok token, m)
  unfolding authenticate
  authenticate_cached secret m dynamic known stale =
      let plain = (eqb_iff c.bot_token []).1 dynamic in
      let hit =
        eqb_of_neq (cache_get w.botx (new_cache c.cache) (cache_key c) m) []
          (subst (λ t. t ≢ []) (sym stale) held) in
      rw (plain, known, hit, authenticate) (ap (λ t. (ok t, m)) stale)

  once :
      (m : Machine)
      → w.send m.history token sr ≡ unauthorized_
      → send_once w sr name c token m ≡ after_401 w sr name c token (sent w sr name c token m)
  unfolding send_once
  once m e = rw (e, send_once) refl

  refreshed :
      (m : Machine)
      → c.bot_token ≡ []
      → authenticate w.botx c m ≡ (ok token, m)
      → after_401 w sr name c token m ≡ send_again w sr name c token m
  unfolding after_401
  refreshed m dynamic e =
      rw ((eqb_iff c.bot_token []).1 dynamic, e, after_401)
        (ap (λ (p : Result Text Text × Machine). send_again w sr name c token p.1) e)

  again_refused :
      (m : Machine)
      → w.send m.history token sr ≡ unauthorized_
      → send_again w sr name c token m ≡ record {
        outcome = stop (err (persistent_401 name));
        token = token;
        machine = sent w sr name c token m;
      }
  unfolding send_again
  again_refused m e = rw (e, send_again) refl

  -- A token that the cache holds and the API refuses is never replaced: the refresh after the 401
  -- reads the same token from the cache, and the message fails after two sends, without a request for a new token.
  pub send_loop_stale :
      (secret : Text) (left i : ℕ) (m : Machine)
      → c.bot_token ≡ []
      → resolve w.botx.getenv w.botx.read_vault c.bot_secret ≡ ok secret
      → ((h : History)
          → cache_get w.botx (new_cache c.cache) (cache_key c) (record m { history = h }) ≡ token)
      → ((h : History) → w.send h token sr ≡ unauthorized_)
      → (send_loop w sr name c left i token m).result ≡ finished (err (persistent_401 name))
        × ((send_loop w sr name c left i token m).machine.history
            ≡ sent_with token ∷ sent_with token ∷ m.history)
  send_loop_stale secret left i m dynamic known stale refused =
      let m1 = sent w sr name c token m in
      let cached = authenticate_cached secret m1 dynamic known (stale m1.history) in
      let final : Tried = record {
        outcome = stop (err (persistent_401 name));
        token = token;
        machine = sent w sr name c token m1;
      } in
      let tried : attempt w sr name c token m ≡ final =
        attempt_held m
        ∙ once m (refused m.history)
        ∙ refreshed m1 dynamic cached
        ∙ again_refused m1 (refused m1.history) in
      let whole =
        stops left i m (err (persistent_401 name)) (ap (λ (t : Tried). t.outcome) tried) in
      (
        ap (λ (s : Sending). s.result) whole,
        ap (λ (s : Sending). s.machine.history) whole ∙ ap (λ (t : Tried). t.machine.history) tried,
      )
