-- ===== src/Worker/Laws/Handle.antt =====
-- What the handling of a message does outside, and what it reports.
use express_send.Common.{
  ◌≡◌, refl, ◌∙◌, ◌≤◌, ◌+◌, ◌*◌, inl, inr, ◌⊎◌, Bool-cases, false, Option, none, some, ok, err, [],
  ◌∷◌, ℕ, zero, suc, arith,
}
use express_send.Text.{Text, codes, eqb}
use express_send.Config.Types.{BotSettings, Config}
use express_send.Config.Bots.{bot_by_id}
use express_send.Queue.Types.{WorkMessage, WorkResult}
use express_send.Token.Auth.{requested, published, History, Machine}
use express_send.Token.Auth.Laws.{sends}
use express_send.Worker.{
  SendParams, Runner, Loop, interrupted, finished, WorkError, WorkerState, Client,
  build_send_request, send_loop, publish_result, conclude, get_or_create_client, parse_work,
  handle_message, add_requests,
}
use express_send.Worker.Laws.{
  confirmations, loop_successes, successes, LoopFrom, send_loop-LoopFrom,
}

-- A handler that returns no error.
unfoldable pub acknowledged : Option WorkError → ℕ
acknowledged none = 1
acknowledged (some e) = 0

-- The request that the worker sends for a message.
abbrev pub request_of : Runner → Client → WorkMessage → Machine → SendParams
request_of w bc msg m = build_send_request (parse_work w bc msg m).0

module _ {ℓ} {A : Type ℓ} (f : History → A)
    (skip : (host id : Text) (h : History) → f (requested host id ∷ h) ≡ f h) where
  add_requests-history : (n : ℕ) (c : Config) (h : History) → f (add_requests n c h) ≡ f h
  unfolding add_requests
  add_requests-history zero c h = refl
  add_requests-history (suc n) c h =
      skip c.host c.bot_id (add_requests n c h) ∙ add_requests-history n c h

  -- A measure of the history that does not count requests for tokens is kept by the parsing.
  parse_work-history :
      (w : Runner) (bc : Client) (msg : WorkMessage) (m : Machine)
      → f (parse_work w bc msg m).1.history ≡ f m.history
  unfolding parse_work
  parse_work-history w bc msg m = elim (Bool-cases msg.payload.opts.no_parse) [
    | inl e ↦ rw (e, parse_work) refl
    | inr e ↦
        rw (e, parse_work)
          (add_requests-history (w.lookup_requests bc msg.payload.message m.history) bc.cfg
            m.history)
  ]

module _ {ℓ} {A : Type ℓ} (f : History → A)
    (skip : (r : WorkResult) (h : History) → f (published r ∷ h) ≡ f h) where
  publish_result-history :
      (clock : History → ℕ) (msg : WorkMessage) (status id error : Text) (m : Machine)
      → f (publish_result clock msg status id error m).history ≡ f m.history
  unfolding publish_result
  publish_result-history clock msg status id error m = elim (Bool-cases (eqb msg.reply_to [])) [
    | inl e ↦ rw (e, publish_result) refl
    | inr e ↦ rw (e, publish_result) (skip _ m.history)
  ]

  conclude-history :
      (w : Runner) (msg : WorkMessage) (l : Loop) (m : Machine)
      → f (conclude w msg l m).1.history ≡ f m.history
  unfolding conclude
  conclude-history w msg interrupted m = refl
  conclude-history w msg (finished (ok id)) m =
      publish_result-history w.botx.now msg (codes "sent") id [] m
  conclude-history w msg (finished (err e)) m =
      publish_result-history w.botx.now msg (codes "failed") [] (w.error_text e) m

conclude-acknowledged :
    (w : Runner) (msg : WorkMessage) (l : Loop) (m : Machine)
    → acknowledged (conclude w msg l m).0 ≡ loop_successes l
unfolding conclude acknowledged loop_successes successes
conclude-acknowledged w msg interrupted m = refl
conclude-acknowledged w msg (finished (ok id)) m = refl
conclude-acknowledged w msg (finished (err e)) m = refl

-- What is reported of a message, on top of a history: one result for it, "sent" with no error
-- returned or "failed" with one.
pub Reported : WorkMessage → Option WorkError → History → Type 0
Reported msg returned h =
    (r : WorkResult) × (before : History) × (h ≡ published r ∷ before)
    × (r.request_id ≡ msg.request_id)
    × (((returned ≡ none) × (r.status ≡ codes "sent"))
        ⊎ ((e : WorkError) × (returned ≡ some e) × (r.status ≡ codes "failed")))

-- A message for a bot of the worker, outside a dry run, is sent at most twice per attempt, and the
-- API confirms it once more where the handler returns no error, and never where it returns one.
pub handle_message_once :
    (w : Runner) (msg : WorkMessage) (st : WorkerState) (name : Text) (bot : BotSettings)
    → bot_by_id msg.routing.bot_id w.bots ≡ ok (name, bot)
    → let sr = request_of w (get_or_create_client w name bot st.clients) msg st.machine in
      let out = handle_message w false msg st in
      (sends out.1.machine.history ≤ 2 * w.retry_count + 2 + sends st.machine.history)
      × (confirmations w.send sr out.1.machine.history
          ≡ acknowledged out.0 + confirmations w.send sr st.machine.history)
unfolding handle_message LoopFrom confirmations acknowledged
handle_message_once w msg st name bot known =
    let bc = get_or_create_client w name bot st.clients in
    let (msg', m) = parse_work w bc msg st.machine in
    let sr = build_send_request msg' in
    let s = send_loop w sr name bc.cfg w.retry_count 0 bc.token m in
    let (few, exact) = send_loop-LoopFrom w sr name bc.cfg w.retry_count 0 bc.token m in
    let parsed_sends =
      parse_work-history sends (λ host id h. unfold sends in refl) w bc msg st.machine in
    let parsed =
      parse_work-history (confirmations w.send sr) (λ host id h. unfold confirmations in refl) w bc
        msg st.machine in
    let same_sends =
      conclude-history sends (λ r h. unfold sends in refl) w msg' s.result s.machine in
    let same =
      conclude-history (confirmations w.send sr) (λ r h. unfold confirmations in refl) w msg'
        s.result s.machine in
    rw (known, handle_message)
      (
        omega (arith, few, same_sends, parsed_sends),
        omega (arith, same, exact, parsed, conclude-acknowledged w msg' s.result s.machine),
      )
