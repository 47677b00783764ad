-- ===== src/Queue/Enqueue/Laws.antt =====
-- What the producer publishes and reports.
use express_send.Common.{
  Bool-cases, ltb, ◌≡◌, ◌≢◌, ◌↔◌, refl, ap, subst, inl, inr, ◌⊎◌, Option-cases, Result-cases,
  >>=-eq-ok, ok-injective, arith, ◌==◌, if◌then◌else◌, Option, none, some, ok, err, List, [], ◌∷◌,
  map, All, length, ◌+◌, ℕ, suc,
}
use express_send.Text.{Text, codes, eqb}
use express_send.Text.Laws.{eqb_iff, neq_of_eqb}
use express_send.Queue.Types.{WorkPayload, WorkMessage}
use express_send.Queue.Enqueue.Routes.{Producer, EnqueueError, resolve_target}
use express_send.Queue.Enqueue.{
  build_pending, EnqueueResult, publish_all, Output, json_response, Failed, ok_count, json_results,
  json_errors, print_enqueue_results, enqueue_targets, run_enqueue,
}

module _ (producer : Producer) (new_request_id : ℕ → Text) (clock : ℕ → ℕ) (payload : WorkPayload)
    (reply_to : Text) where
  -- A pending message is for the route of its target.
  pub ForTarget : Text × WorkMessage → Type 0
  ForTarget p =
      (resolve_target producer p.0 ≡ ok p.1.routing)
      × (p.1.payload ≡ payload)
      × (p.1.reply_to ≡ reply_to)

  build_pending-ForTarget :
      (i : ℕ) (chats : List Text) (pending : List (Text × WorkMessage))
      → build_pending producer new_request_id clock payload reply_to i chats ≡ ok pending
      → All ForTarget pending × (map (λ (p : Text × WorkMessage). p.0) pending ≡ chats)
  unfolding build_pending ForTarget
  build_pending-ForTarget i [] pending h =
      subst (λ x. All ForTarget x × (map (λ (p : Text × WorkMessage). p.0) x ≡ [])) (ok-injective h)
        (tt, refl)
  build_pending-ForTarget i (chat ∷ chats) pending h =
      let (route, e1, h1) = >>=-eq-ok (resolve_target producer chat) _ h in
      let (rest, e2, h2) =
        >>=-eq-ok (build_pending producer new_request_id clock payload reply_to (suc i) chats) _
          h1 in
      let (good, same) = build_pending-ForTarget (suc i) chats rest e2 in
      subst (λ x. All ForTarget x × (map (λ (p : Text × WorkMessage). p.0) x ≡ chat ∷ chats))
        (ok-injective h2) (((e1, refl, refl), good), ap (◌∷◌ chat) same)

exit_iff :
    (xs : List WorkMessage) (n : ℕ) (e : Failed)
    → n ≡ length xs
    → ((if n == 0 then some e else none) ≡ none) ↔ (xs ≢ [])
exit_iff [] n e same = (λ h. absurd (let bad = rw same at h in cc), λ ne. absurd (ne refl))
exit_iff (x ∷ xs) n e same = (λ h empty. absurd (cc), λ ne. ground (arith, same))

module _ (publish : WorkMessage → Option Text) where
  -- Each chat has its result, and the request ids that are reported are those of the published
  -- messages.
  publish_all-reported :
      (pending : List (Text × WorkMessage))
      → let out = publish_all publish pending in
        (map (λ (r : EnqueueResult). r.chat) out.1 ≡ map (λ (p : Text × WorkMessage). p.0) pending)
        × (map (λ (p : Text × Text). p.1) (json_results out.1)
            ≡ map (λ (m : WorkMessage). m.request_id) out.0)
        × (ok_count out.1 ≡ length out.0)
        × (length (json_errors out.1) + length out.0 ≡ length pending)
  unfolding publish_all json_results json_errors ok_count
  publish_all-reported [] = (refl, refl, refl, refl)
  publish_all-reported ((chat, msg) ∷ pending) =
      let (chats, ids, count, rest) = publish_all-reported pending in
      elim (Option-cases (publish msg)) [
        | inr (why, e) ↦
            rw (e, publish_all, json_results, json_errors, ok_count)
              (ap (◌∷◌ chat) chats, ids, count, omega (arith, rest))
        | inl e ↦
            rw (e, publish_all, json_results, json_errors, ok_count)
              (ap (◌∷◌ chat) chats, ap (◌∷◌ msg.request_id) ids, ap suc count, omega (arith, rest))
      ]

  -- The command succeeds exactly where something was published and a JSON response was written.
  exit_status :
      (encode_error : Output → Option Text) (format : Text) (pending : List (Text × WorkMessage))
      → let printed = print_enqueue_results encode_error format (publish_all publish pending).1 in
        (printed.1 ≡ none) ↔ (
          ((publish_all publish pending).0 ≢ [])
          × (format ≡ codes "json" → encode_error printed.0 ≡ none))
  unfolding print_enqueue_results
  exit_status encode_error format pending =
      let out = publish_all publish pending in
      let (_, _, count, _) = publish_all-reported pending in
      let response =
        json_response (ltb 0 (ok_count out.1)) (json_results out.1) (json_errors out.1) in
      let (to, from) = exit_iff out.0 _ _ count in
      elim (Bool-cases (eqb format (codes "json"))) [
        | inr e ↦
            let plain = neq_of_eqb format (codes "json") e in
            rw (e, print_enqueue_results)
              (λ h. (to h, λ same. absurd (plain same)), λ (ne, _). from ne)
        | inl e ↦
            let json = (eqb_iff format (codes "json")).0 e in
            elim (Option-cases (encode_error response)) [
              | inl k ↦
                  rw (e, k, print_enqueue_results) (λ h. (to h, λ same. refl), λ (ne, _). from ne)
              | inr (why, k) ↦
                  rw (e, k, print_enqueue_results)
                    (λ h. absurd (cc), λ (_, written). absurd (let bad = written json in cc))
            ]
      ]

-- What is published for the targets, in their order: for each the broker either takes one message, for
-- the route of this target and with the payload and the reply queue of the command, or refuses it.
pub data Publishes (producer : Producer) (payload : WorkPayload) (reply_to : Text)
    (publish : WorkMessage → Option Text) : List Text → List WorkMessage → Type 0 where
  done : Publishes producer payload reply_to publish [] []
  taken :
      {chat : Text} {msg : WorkMessage} {chats : List Text} {msgs : List WorkMessage}
      → resolve_target producer chat ≡ ok msg.routing
      → msg.payload ≡ payload
      → msg.reply_to ≡ reply_to
      → publish msg ≡ none
      → Publishes producer payload reply_to publish chats msgs
      → Publishes producer payload reply_to publish (chat ∷ chats) (msg ∷ msgs)
  refused :
      {chat why : Text} {msg : WorkMessage} {chats : List Text} {msgs : List WorkMessage}
      → resolve_target producer chat ≡ ok msg.routing
      → msg.payload ≡ payload
      → msg.reply_to ≡ reply_to
      → publish msg ≡ some why
      → Publishes producer payload reply_to publish chats msgs
      → Publishes producer payload reply_to publish (chat ∷ chats) msgs

module _ (producer : Producer) (new_request_id : ℕ → Text) (clock : ℕ → ℕ) (payload : WorkPayload)
    (reply_to : Text) (publish : WorkMessage → Option Text) where
  publish_all-Publishes :
      (pending : List (Text × WorkMessage))
      → All (ForTarget producer new_request_id clock payload reply_to) pending
      → Publishes producer payload reply_to publish
          (map (λ (p : Text × WorkMessage). p.0) pending)
          (publish_all publish pending).0
  unfolding publish_all ForTarget
  publish_all-Publishes [] h = done
  publish_all-Publishes ((chat, msg) ∷ pending) ((route, same, queue), h) =
      elim (Option-cases (publish msg)) [
        | inr (why, e) ↦
            rw (e, publish_all) (refused route same queue e (publish_all-Publishes pending h))
        | inl e ↦ rw (e, publish_all) (taken route same queue e (publish_all-Publishes pending h))
      ]

-- The command accepts or refuses its targets as a whole: where it gives an error it has published
-- nothing; otherwise, for each target in order, the broker has taken or refused one message for the
-- route of this target, with the payload and reply queue of the command, nothing else is published, and the
-- command succeeds exactly where the broker took a message and, in the JSON format, the response was written.
pub run_enqueue-Publishes :
    (producer : Producer) (new_request_id : ℕ → Text) (clock : ℕ → ℕ) (payload : WorkPayload)
    (reply_to : Text) (publish : WorkMessage → Option Text) (encode_error : Output → Option Text)
    (format raw : Text)
    → let out =
        run_enqueue producer new_request_id clock payload reply_to publish encode_error format
          raw in
      ((why : EnqueueError) × (out.1 ≡ err why) × (out.0 ≡ []))
      ⊎ ((printed : Output × Option Failed) × (out.1 ≡ ok printed)
          × Publishes producer payload reply_to publish (enqueue_targets raw) out.0
          × ((printed.1 ≡ none)
              ↔ ((out.0 ≢ []) × (format ≡ codes "json" → encode_error printed.0 ≡ none))))
unfolding run_enqueue
run_enqueue-Publishes producer new_request_id clock payload reply_to publish encode_error format
      raw =
    elim (Result-cases
      (build_pending producer new_request_id clock payload reply_to 0 (enqueue_targets raw))) [
        | inr (why, e) ↦ rw (e, run_enqueue) (inl (why, refl, refl))
        | inl (pending, e) ↦
            let (good, same) =
              build_pending-ForTarget producer new_request_id clock payload reply_to 0
                (enqueue_targets raw) pending e in
            rw (e, run_enqueue)
              (inr (
                print_enqueue_results encode_error format (publish_all publish pending).1,
                refl,
                subst
                    (λ chats.
                      Publishes producer payload reply_to publish chats
                        (publish_all publish pending).0)
                    same
                    (publish_all-Publishes producer new_request_id clock payload reply_to publish
                      pending good),
                exit_status publish encode_error format pending,
              ))
      ]
