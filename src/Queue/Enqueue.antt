-- ===== src/Queue/Enqueue.antt =====
-- The producer on the command line: `runEnqueue`, `resolveViaCatalog` and `printEnqueueResults` of
-- internal/cmd/enqueue.go, from the expansion of the chats on. `time.ParseDuration` is the parameter
-- `parse_duration`, the request ids and the times are functions of the place in the list, and the
-- broker answers by `publish`.
pub mod Routes
pub mod Laws
use express_send.Common.{
  ℕ, suc, zero, ltb, length, ◌==◌, Bool, true, false, ◌&&◌, ◌||◌, not, if◌then◌else◌, Option, none,
  some, List, [], ◌∷◌, ◌++◌, Result, ok, err, ◌>>=◌,
}
use express_send.Text.{Text, codes, eqb}
use express_send.Server.MultiSend.{parse_chat_ids}
use express_send.Queue.Types.{Routing, WorkPayload, WorkMessage}
use express_send.Queue.Enqueue.Routes.{Producer, EnqueueError, resolve_target}

module _ (producer : Producer) (new_request_id : ℕ → Text) (clock : ℕ → ℕ) (payload : WorkPayload)
    (reply_to : Text) where
  -- A target with its message: `pendingEnqueue`.
  abbrev pub Pending : Type 0
  Pending = Text × WorkMessage

  -- Phase 1, from target `i` on.
  unfoldable pub build_pending : ℕ → List Text → Result EnqueueError (List Pending)
  unfolding resolve_target
  build_pending i [] = ok []
  build_pending i (chat ∷ chats) =
      let rest = build_pending (suc i) chats in
      resolve_target producer chat >>= λ route. rest >>= λ pending. ok (
        (
          chat,
          record {
            request_id = new_request_id i;
            routing = route;
            payload = payload;
            reply_to = reply_to;
            enqueued_at = clock i;
          },
        )
        ∷ pending)

-- A target and its request id, or the error of the broker.
pub record EnqueueResult : Type 0 where
  pub chat : Text
  pub request_id : Text
  pub error : Text

-- Phase 2: what was published, in order, and the results.
unfoldable pub publish_all :
    (WorkMessage → Option Text) → List (Text × WorkMessage) → List WorkMessage × List EnqueueResult
publish_all publish [] = ([], [])
publish_all publish ((chat, msg) ∷ pending) =
    let rest = publish_all publish pending in
    elim (publish msg) [
      | some why ↦ (
        rest.0,
        record { chat = chat; request_id = []; error = codes "publishing to queue: " ++ why }
            ∷ rest.1,
      )
      | none ↦
          (msg ∷ rest.0, record { chat = chat; request_id = msg.request_id; error = [] } ∷ rest.1)
    ]

-- What is printed: the lines of the human format, or the JSON response.
pub data Output : Type 0 where
  lines : List Text → Output
  json_response : Bool → List (Text × Text) → List (Text × Text) → Output

unfoldable pub ok_count : List EnqueueResult → ℕ
unfolding eqb
ok_count [] = 0
ok_count (r ∷ results) = let rest = ok_count results in if eqb r.error [] then suc rest else rest

unfoldable pub human_lines : Bool → List EnqueueResult → List Text
unfolding eqb
human_lines many [] = []
human_lines many (r ∷ results) =
    let rest = human_lines many results in
    if not (eqb r.error [])
    then (if many then (r.chat ++ (codes ": ERROR " ++ r.error)) ∷ rest else rest)
    else r.request_id ∷ rest

unfoldable pub json_results : List EnqueueResult → List (Text × Text)
unfolding eqb
json_results [] = []
json_results (r ∷ results) =
    let rest = json_results results in
    if not (eqb r.error []) then rest else (r.chat, r.request_id) ∷ rest

unfoldable pub json_errors : List EnqueueResult → List (Text × Text)
unfolding eqb
json_errors [] = []
json_errors (r ∷ results) =
    let rest = json_errors results in
    if not (eqb r.error []) then (r.chat, r.error) ∷ rest else rest

-- The error that the command ends with.
pub data Failed : Type 0 where
  with_error : Text → Failed
  -- The error of the JSON encoder.
  not_written : Text → Failed
  all_failed : ℕ → Failed

abbrev total_failure : List EnqueueResult → Failed
total_failure (r ∷ []) = with_error r.error
total_failure results = all_failed (length results)

abbrev pub exit_of : List EnqueueResult → Option Failed
exit_of results = if ok_count results == 0 then some (total_failure results) else none

-- `printEnqueueResults`: the output and the error. `encode_error` is the error of writing a JSON
-- response, which comes first; those of writing lines are dropped.
unfoldable pub print_enqueue_results :
    (Output → Option Text) → Text → List EnqueueResult → Output × Option Failed
unfolding ok_count human_lines json_results json_errors
print_enqueue_results encode_error format results =
    let response =
      json_response (ltb 0 (ok_count results)) (json_results results) (json_errors results) in
    let encoded : Option Failed = elim (encode_error response) [
      | some why ↦ some (not_written why)
      | none ↦ exit_of results
    ] in
    if eqb format (codes "json")
    then (response, encoded)
    else (lines (human_lines (ltb 1 (length results)) results), exit_of results)

-- The targets of the command: a blank list stands for itself.
unfoldable pub enqueue_targets : Text → List Text
unfolding parse_chat_ids
enqueue_targets raw = elim (parse_chat_ids raw) [ [] ↦ raw ∷ [] | c ∷ cs ↦ c ∷ cs ]

-- The command: what it publishes, and its output, or the error before anything is published.
unfoldable pub run_enqueue :
    Producer
    → (ℕ → Text)
    → (ℕ → ℕ)
    → WorkPayload
    → Text
    → (WorkMessage → Option Text)
    → (Output → Option Text)
    → Text
    → Text
    → List WorkMessage × Result EnqueueError (Output × Option Failed)
unfolding build_pending publish_all print_enqueue_results enqueue_targets
run_enqueue producer new_request_id clock payload reply_to publish encode_error format raw =
    elim (build_pending producer new_request_id clock payload reply_to 0 (enqueue_targets raw)) [
      | err why ↦ ([], err why)
      | ok pending ↦
          let out = publish_all publish pending in
          (out.0, ok (print_enqueue_results encode_error format out.1))
    ]
