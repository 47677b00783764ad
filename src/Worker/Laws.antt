-- ===== src/Worker/Laws.antt =====
-- How often a message is sent and confirmed.
pub mod Handle
pub mod Recovery
use express_send.Common.{
  ◌≡◌, ◌≢◌, refl, sym, ap, ◌∙◌, subst, ◌≤◌, ◌+◌, ◌*◌, inl, inr, ◌⊎◌, Bool-cases, Option-cases,
  Result-cases, true, false, ◌&&◌, not, ltb, Option, none, some, ok, err, Result, List, [], ◌∷◌, ℕ,
  zero, suc, arith,
}
use express_send.Text.{Text, eqb}
use express_send.Config.Types.{Config}
use express_send.Token.Auth.{
  Event, requested, sent_with, published, History, Answer, delivered, unauthorized_, failed,
  Machine, Botx, authenticate,
}
use express_send.Token.Auth.Laws.{sends, authenticate-history}
use express_send.Worker.{
  SendParams, Runner, Attempt, stop, again, Tried, Loop, interrupted, finished, Sending, WorkError,
  send_again, after_401, send_once, attempt, send_loop, sent, ended, refresh_failed, authenticating,
}

abbrev pub is_delivered : Answer → ℕ
is_delivered (delivered id) = 1
is_delivered unauthorized_ = 0
is_delivered (failed why) = 0

-- How often the API has confirmed a request: an answer with another error than 401 is none, though
-- the message may have been taken all the same.
unfoldable pub confirmations : (History → Text → SendParams → Answer) → SendParams → History → ℕ
confirmations api sr [] = 0
confirmations api sr (sent_with t ∷ h) = is_delivered (api h t sr) + confirmations api sr h
confirmations api sr (requested host id ∷ h) = confirmations api sr h
confirmations api sr (published r ∷ h) = confirmations api sr h

-- A success is one confirmation.
unfoldable pub successes : Result WorkError Text → ℕ
successes (ok id) = 1
successes (err e) = 0

unfoldable pub outcome_successes : Attempt → ℕ
unfolding successes
outcome_successes (stop r) = successes r
outcome_successes (again e) = 0

unfoldable pub loop_successes : Loop → ℕ
unfolding successes
loop_successes interrupted = 0
loop_successes (finished r) = successes r

pub Answer-cases :
    (a : Answer)
    → ((id : Text) × (a ≡ delivered id)) ⊎ (a ≡ unauthorized_) ⊎ ((why : Text) × (a ≡ failed why))
Answer-cases (delivered id) = inl (id, refl)
Answer-cases unauthorized_ = inr (inl refl)
Answer-cases (failed why) = inr (inr (why, refl))

module _ (w : Runner) (sr : SendParams) (name : Text) (c : Config) where
  -- What a step does: at most `k` messages, and a confirmation exactly where it ends well.
  StepFrom : ℕ → Machine → Tried → Type 0
  StepFrom k m t =
      (sends t.machine.history ≤ k + sends m.history)
      × (confirmations w.send sr t.machine.history
          ≡ outcome_successes t.outcome + confirmations w.send sr m.history)

  send_again-StepFrom : (token : Text) (m : Machine) → StepFrom 1 m (send_again w sr name c token m)
  unfolding send_again StepFrom outcome_successes successes confirmations sends
  send_again-StepFrom token m = elim (Answer-cases (w.send m.history token sr)) [
    | inl (id, e) ↦ rw (e, send_again, confirmations) (omega arith, rw e refl)
    | inr (inl e) ↦ rw (e, send_again, confirmations) (omega arith, rw e refl)
    | inr (inr (why, e)) ↦ rw (e, send_again, confirmations) (omega arith, rw e refl)
  ]

  -- A step from a machine that only asked for a token is one from the machine before.
  from_authenticated :
      (k : ℕ) (m : Machine) (t : Tried) → StepFrom k (authenticate w.botx c m).1 t → StepFrom k m t
  unfolding StepFrom
  from_authenticated k m t (few, exact) = (
    omega (arith, few, authenticate-history sends (λ host id h. unfold sends in refl) w.botx c m),
    exact
        ∙ ap (λ n. outcome_successes t.outcome + n)
            (authenticate-history (confirmations w.send sr)
              (λ host id h. unfold confirmations in refl) w.botx c m),
  )

  -- An outcome without a message and without success.
  idle :
      (k : ℕ) (m : Machine) (o : Attempt) (token : Text)
      → outcome_successes o ≡ 0
      → StepFrom k
          (authenticate w.botx c m).1
          (record { outcome = o; token = token; machine = (authenticate w.botx c m).1 })
  unfolding StepFrom
  idle k m o token none_ = (omega arith, rw none_ (omega arith))

  after_401-StepFrom : (token : Text) (m : Machine) → StepFrom 1 m (after_401 w sr name c token m)
  unfolding after_401
  after_401-StepFrom token m = elim (Bool-cases (eqb c.bot_token [])) [
    | inr e ↦
        rw (e, after_401)
          (unfold StepFrom outcome_successes successes in (omega arith, omega arith))
    | inl e ↦ elim (Result-cases (authenticate w.botx c m).0) [
      | inr (why, k) ↦
          rw (e, k, after_401)
            (from_authenticated 1 m _ (
              idle 1 m (stop (err (refresh_failed name))) token
                (unfold outcome_successes successes in refl)))
      | inl (fresh, k) ↦
          rw (e, k, after_401)
            (from_authenticated 1 m _ (send_again-StepFrom fresh (authenticate w.botx c m).1))
    ]
  ]

  after_refusal :
      (token : Text) (m : Machine) (t : Tried)
      → w.send m.history token sr ≡ unauthorized_
      → StepFrom 1 (sent w sr name c token m) t
      → StepFrom 2 m t
  unfolding StepFrom confirmations sends
  after_refusal token m t e (few, exact) = (omega (arith, few), exact ∙ rw e (omega arith))

  send_once-StepFrom : (token : Text) (m : Machine) → StepFrom 2 m (send_once w sr name c token m)
  unfolding send_once
  send_once-StepFrom token m = elim (Answer-cases (w.send m.history token sr)) [
    | inl (id, e) ↦
        rw (e, send_once)
          (unfold StepFrom outcome_successes successes confirmations sends in
            (omega arith, rw e refl))
    | inr (inl e) ↦
        rw (e, send_once)
          (after_refusal token m _ e (after_401-StepFrom token (sent w sr name c token m)))
    | inr (inr (why, e)) ↦
        rw (e, send_once)
          (unfold StepFrom outcome_successes successes confirmations sends in
            (omega arith, rw e refl))
  ]

  attempt-StepFrom : (token : Text) (m : Machine) → StepFrom 2 m (attempt w sr name c token m)
  unfolding attempt
  attempt-StepFrom token m = elim (Bool-cases (eqb token [])) [
    | inr e ↦ rw (e, attempt) (send_once-StepFrom token m)
    | inl e ↦ elim (Result-cases (authenticate w.botx c m).0) [
      | inr (why, k) ↦
          rw (e, k, attempt)
            (from_authenticated 2 m _
              (idle 2 m (again (authenticating name)) token (unfold outcome_successes in refl)))
      | inl (tok, k) ↦
          rw (e, k, attempt)
            (from_authenticated 2 m _ (send_once-StepFrom tok (authenticate w.botx c m).1))
    ]
  ]

  -- What the whole loop does: at most `k` messages, and a confirmation exactly where it ends well.
  unfoldable pub LoopFrom : ℕ → Machine → Sending → Type 0
  LoopFrom k m s =
      (sends s.machine.history ≤ k + sends m.history)
      × (confirmations w.send sr s.machine.history
          ≡ loop_successes s.result + confirmations w.send sr m.history)

  Attempt-cases :
      (a : Attempt)
      → ((r : Result WorkError Text) × (a ≡ stop r)) ⊎ ((e : WorkError) × (a ≡ again e))
  Attempt-cases (stop r) = inl (r, refl)
  Attempt-cases (again e) = inr (e, refl)

  stop-LoopFrom :
      (k : ℕ) (m : Machine) (t : Tried) (r : Result WorkError Text)
      → outcome_successes t.outcome ≡ successes r
      → 2 ≤ k
      → StepFrom 2 m t
      → LoopFrom k m (ended w sr name c (finished r) t)
  unfolding StepFrom LoopFrom loop_successes
  stop-LoopFrom k m t r same few (bound, exact) = (omega (arith, bound, few), exact ∙ rw same refl)

  again-LoopFrom :
      (k : ℕ) (m : Machine) (t : Tried) (e : WorkError) (s : Sending)
      → t.outcome ≡ again e
      → StepFrom 2 m t
      → LoopFrom k t.machine s
      → LoopFrom (2 + k) m s
  unfolding StepFrom LoopFrom outcome_successes
  again-LoopFrom k m t e s same (bound, exact) (bound', exact') =
      (omega (arith, bound, bound'), exact' ∙ rw exact (rw same (omega arith)))

  stopped-LoopFrom :
      (k : ℕ) (token : Text) (m : Machine)
      → LoopFrom k m (record { result = interrupted; token = token; machine = m })
  unfolding LoopFrom loop_successes
  stopped-LoopFrom k token m = (omega arith, omega arith)

  pub send_loop-LoopFrom :
      (left i : ℕ) (token : Text) (m : Machine)
      → LoopFrom (2 * left + 2) m (send_loop w sr name c left i token m)
  unfolding send_loop
  send_loop-LoopFrom zero i token m = elim (Bool-cases (ltb 0 i && w.cancelled i)) [
    | inl x ↦ rw (x, send_loop) (stopped-LoopFrom _ token m)
    | inr x ↦ elim (Attempt-cases (attempt w sr name c token m).outcome) [
      | inl (r, k) ↦
          rw (x, k, send_loop)
            (stop-LoopFrom _ m (attempt w sr name c token m) r
              (rw k (unfold outcome_successes in refl)) (omega arith) (attempt-StepFrom token m))
      | inr (e, k) ↦
          rw (x, k, send_loop)
            (stop-LoopFrom _ m (attempt w sr name c token m) (err e)
              (rw k (unfold outcome_successes successes in refl)) (omega arith)
              (attempt-StepFrom token m))
    ]
  ]
  send_loop-LoopFrom (suc left) i token m = elim (Bool-cases (ltb 0 i && w.cancelled i)) [
    | inl x ↦ rw (x, send_loop) (stopped-LoopFrom _ token m)
    | inr x ↦ elim (Attempt-cases (attempt w sr name c token m).outcome) [
      | inl (r, k) ↦
          rw (x, k, send_loop)
            (stop-LoopFrom _ m (attempt w sr name c token m) r
              (rw k (unfold outcome_successes in refl)) (omega arith) (attempt-StepFrom token m))
      | inr (e, k) ↦
          let t = attempt w sr name c token m in
          let size : 2 + (2 * left + 2) ≡ 2 * suc left + 2 = omega arith in
          rw (x, k, send_loop)
            (subst (λ n. LoopFrom n m (send_loop w sr name c left (suc i) t.token t.machine)) size
              (again-LoopFrom _ m t e _ k (attempt-StepFrom token m)
                (send_loop-LoopFrom left (suc i) t.token t.machine)))
    ]
  ]
