-- ===== src/Gitlab/Handler/Scope.antt =====
-- Which chats the event of a sender reaches.
use express_send.Common.{
  Bool, true, Option, some, List, [], ◌∷◌, ◌≡◌, ◌≢◌, inl, inr, refl, arith, Result, ok,
  Option-cases, Result-cases, All, All-append,
}
use express_send.Text.{Text, codes, eqb, contains, split}
use express_send.Text.Laws.{eqb_refl}
use express_send.Text.Sets.{All_at}
use express_send.Gitlab.Payload.{Fields, GitlabView, normalize_gitlab}
use express_send.Gitlab.Route.{CompiledRoute, evaluate_routes}
use express_send.Gitlab.Route.Evaluate.{Fires, here, later, evaluate_routes_iff}
use express_send.Server.Types.{Context, ChatResult, SendPayload, refused, invalid_token}
use express_send.Server.MultiSend.{
  Pipeline, Sent, hand_over, trim_space, parse_chat_ids, collect_chats, strip, cut_one,
  deliver_plain, fanout_send,
}
use express_send.Server.MultiSend.Laws.{fanout-kept}
use express_send.Server.Bots.{resolve_request_bot}
use express_send.Server.Notify.{query_chats}
use express_send.Gitlab.Handler.{
  GitlabTarget, GitlabSender, select_template, resolve_gitlab_auth, sender_scope_targets,
  gitlab_deliver, GitlabRequest, dispatch, handle_event, handle_gitlab,
}
use express_send.Gitlab.Handler.Laws.{
  FirstWith, resolve_gitlab_auth_iff, IsScopeTarget, sender_scope_targets-Covered,
}

-- A payload for the chat that a delivery target of the scope resolves to.
abbrev pub Addressed :
    (Text → Result Text ChatResult) → List (Text × GitlabTarget) → SendPayload → Type 0
Addressed chats scope p =
    (t : Text) × (found : ChatResult) × IsScopeTarget scope t
    × (chats t ≡ ok found)
    × (p.chat_id ≡ found.chat_id)

-- What the builder of a sender guarantees: its delivery targets and the chats of its routes are
-- delivery targets of its scope.
pub record Consistent {Regexp Template : Type 0} (sender : GitlabSender Regexp Template)
    : Type 0 where
  pub targets_in : All (IsScopeTarget sender.scope) sender.targets
  pub routes_in :
      All (λ (r : CompiledRoute Regexp). All (IsScopeTarget sender.scope) r.chats) sender.routes

-- What holds of the chats of all rules holds of the chats of a rule that fires.
Fires-All :
    {Regexp : Type 0} (match_string : Regexp → Text → Bool) (view : GitlabView) (P : Text → Type 0)
    {rs : List (CompiledRoute Regexp)} {r : CompiledRoute Regexp}
    → All (λ (r : CompiledRoute Regexp). All P r.chats) rs
    → Fires match_string view rs r
    → All P r.chats
Fires-All match_string view P h (here _) = h.0
Fires-All match_string view P h (later _ f) = Fires-All match_string view P h.1 f

-- A property of the members of a list holds of all of it.
All-of_members :
    (P : Text → Type 0) (xs : List Text) → ((a : Text) → contains a xs ≡ true → P a) → All P xs
unfolding contains
All-of_members P [] h = tt
All-of_members P (x ∷ xs) h =
    (h x (rw (eqb_refl x) refl), All-of_members P xs (λ a at. h a (ground arith)))

routed-All :
    {Regexp : Type 0} (match_string : Regexp → Text → Bool) (view : GitlabView) (P : Text → Type 0)
    (rs : List (CompiledRoute Regexp))
    → All (λ (r : CompiledRoute Regexp). All P r.chats) rs
    → All P (evaluate_routes match_string view rs).chats
routed-All match_string view P rs h =
    All-of_members P (evaluate_routes match_string view rs).chats (λ a at.
      let (r, fires, in_r) = (evaluate_routes_iff match_string view rs a).0 at in
      All_at P r.chats a (Fires-All match_string view P h fires) in_r)

query_chats-none : parse_chat_ids [] ≡ []
unfolding parse_chat_ids collect_chats trim_space strip cut_one split eqb
query_chats-none = refl

module _ (pipe : Pipeline) (ctx : Context) (scope : List (Text × GitlabTarget)) where
  deliver_plain-Addressed :
      (bot message status target : Text) (sent : Sent)
      → IsScopeTarget scope target
      → All (Addressed pipe.chats scope) sent
      → All (Addressed pipe.chats scope) (deliver_plain pipe ctx bot message status target sent).1
  unfolding deliver_plain hand_over
  deliver_plain-Addressed bot message status target sent inside h =
      elim (Result-cases (pipe.chats target)) [
        | inr (why, e) ↦ rw (e, deliver_plain) h
        | inl (found, e) ↦ elim (Result-cases (resolve_request_bot pipe.bots ctx bot found.bot)) [
          | inr (why, eb) ↦ rw (e, eb, deliver_plain) h
          | inl (b, eb) ↦
              rw (e, eb, deliver_plain)
                (All-append (Addressed pipe.chats scope) sent _ h
                  ((target, found, inside, e, refl), tt))
        ]
      ]

  gitlab_deliver-Addressed :
      (targets : List Text) (message status : Text)
      → All (IsScopeTarget scope) targets
      → All (Addressed pipe.chats scope) (gitlab_deliver pipe ctx [] targets message status []).1
  unfolding gitlab_deliver fanout_send
  gitlab_deliver-Addressed targets message status inside =
      fanout-kept (All (Addressed pipe.chats scope)) (IsScopeTarget scope)
        (deliver_plain pipe ctx [] message status) (deliver_plain-Addressed [] message status)
        targets [] inside tt

module _ {Regexp Template : Type 0} (match_string : Regexp → Text → Bool)
    (execute : Template → GitlabView → Result Text Text) (decode : Text → Result Text Fields)
    (pipe : Pipeline) (ctx : Context) where
  dispatch-Addressed :
      (sender : GitlabSender Regexp Template) (view : GitlabView) (chat_id : Option Text)
      (message status : Text)
      → Consistent sender
      → All
          (Addressed pipe.chats sender.scope)
          (dispatch match_string execute decode pipe ctx sender view chat_id message status []).1
  unfolding dispatch
  dispatch-Addressed sender view chat_id message status k =
      let routed =
        routed-All match_string view (IsScopeTarget sender.scope) sender.routes k.routes_in in
      elim (Result-cases (sender_scope_targets pipe.chats (query_chats chat_id) sender.scope)) [
        | inr (why, e) ↦ rw e (
            ground (
              arith,
              gitlab_deliver-Addressed pipe ctx sender.scope _ message status routed,
              gitlab_deliver-Addressed pipe ctx sender.scope sender.targets message status
                  k.targets_in,
            ))
        | inl (targets, e) ↦ rw e (
            ground (
              arith,
              gitlab_deliver-Addressed pipe ctx sender.scope targets message status
                  (sender_scope_targets-Covered pipe.chats sender.scope _ targets e).1,
              gitlab_deliver-Addressed pipe ctx sender.scope _ message status routed,
              gitlab_deliver-Addressed pipe ctx sender.scope sender.targets message status
                  k.targets_in,
            ))
      ]

  handle_event-Addressed :
      (sender : GitlabSender Regexp Template) (view : GitlabView) (chat_id : Option Text)
      → Consistent sender
      → All
          (Addressed pipe.chats sender.scope)
          (handle_event match_string execute decode pipe ctx sender view chat_id []).1
  unfolding handle_event
  handle_event-Addressed sender view chat_id k =
      elim (Result-cases
        (execute (select_template sender.templates view.kind view.event_key) view)) [
          | inr (why, e) ↦ rw e (ground arith)
          | inl (message, e) ↦ rw e (
              ground (
                arith,
                dispatch-Addressed sender view chat_id message (codes "error") k,
                dispatch-Addressed sender view chat_id message (codes "ok") k,
              ))
        ]

  -- Whatever a GitLab webhook hands to the send function is for a chat that a delivery target in
  -- the scope of the authenticated sender resolves to, whether the targets come from ?chat_id,
  -- from the routes or from the sender; the sender is consistent, as its builder guarantees.
  pub handle_gitlab-Addressed :
      (senders : List (GitlabSender Regexp Template)) (r : GitlabRequest)
      (sender : GitlabSender Regexp Template)
      → r.token ≢ []
      → FirstWith r.token senders sender
      → Consistent sender
      → All
          (Addressed pipe.chats sender.scope)
          (handle_gitlab match_string execute decode pipe ctx (some senders) r []).1
  unfolding handle_gitlab
  handle_gitlab-Addressed senders r sender ne first k =
      let found = (resolve_gitlab_auth_iff senders r.token sender).1 (ne, first) in
      elim (Result-cases (decode r.body)) [
        | inr (why, e) ↦ rw (found, e, handle_gitlab) tt
        | inl (raw, e) ↦
            rw (found, e, handle_gitlab)
              (handle_event-Addressed sender (normalize_gitlab raw) r.chat_id k)
      ]

  -- A webhook whose token is empty, or is the secret of no sender, is refused with 401 and sends nothing.
  pub handle_gitlab-unauthorized :
      (senders : List (GitlabSender Regexp Template)) (r : GitlabRequest) (sent : Sent)
      → ((sender : GitlabSender Regexp Template)
          → r.token ≢ []
          → ¬ FirstWith r.token senders sender)
      → handle_gitlab match_string execute decode pipe ctx (some senders) r sent
        ≡ (refused 401 invalid_token, sent)
  unfolding handle_gitlab
  handle_gitlab-unauthorized senders r sent nobody =
      elim (Option-cases (resolve_gitlab_auth senders r.token)) [
        | inl e ↦ rw (e, handle_gitlab) refl
        | inr (sender, e) ↦
            let (ne, first) = (resolve_gitlab_auth_iff senders r.token sender).0 e in
            absurd (nobody sender ne first)
      ]
