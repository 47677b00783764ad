-- ===== src/Server/Auth/Hiding.antt =====
-- What a scoped caller is told of failures.
use express_send.Common.{
  not, subst, eq_of_some, ℕ, Bool, true, false, ◌&&◌, some, List, [], ◌∷◌, ◌≡◌, ◌≢◌, inl, inr, refl,
  ap, map, Result, Bool-cases, Result-cases, All,
}
use express_send.Text.{Text}
use express_send.Server.Types.{
  Context, ChatResult, SendError, SendResult, is_uuid, Response, multi, ignored, chat_not_allowed,
  refused, Message, text,
}
use express_send.Server.MultiSend.{write_multi_send}
use express_send.Server.Auth.Laws.{nonempty}
use express_send.Server.Auth.{
  deny_chat, scoped, chat_allowed, check_targets, authorize_targets, hide_errors, sanitize_errors,
}

hide_errors-hidden :
    (errs : List SendError)
    → All (λ e. e.error ≡ chat_not_allowed) (hide_errors errs)
      × (map (λ (e : SendError). e.chat) (hide_errors errs) ≡ map (λ (e : SendError). e.chat) errs)
unfolding hide_errors
hide_errors-hidden [] = (tt, refl)
hide_errors-hidden (e ∷ errs) =
    let (hidden, same) = hide_errors-hidden errs in ((refl, hidden), ap (◌∷◌ e.chat) same)

-- The errors that a scoped caller sees: the chat, and nothing that tells one failure from another.
pub sanitize_errors-hidden :
    (ctx : Context) (errs : List SendError)
    → ctx.key_scope ≢ []
    → All (λ e. e.error ≡ chat_not_allowed) (sanitize_errors ctx errs)
      × (map (λ (e : SendError). e.chat) (sanitize_errors ctx errs)
          ≡ map (λ (e : SendError). e.chat) errs)
unfolding sanitize_errors
sanitize_errors-hidden ctx errs ne =
    rw (nonempty ctx.key_scope ne, sanitize_errors) (hide_errors-hidden errs)

-- A refusal that quotes no error of the chat resolver.
abbrev pub IsQuiet : Message → Type 0
IsQuiet (text why) = ⊥
IsQuiet _ = Unit

-- A response whose errors name the chat and nothing that tells one failure from another, and that
-- is no refusal with an error of the resolver.
abbrev pub Hides : Response → Type 0
Hides (refused code why) = IsQuiet why
Hides (multi code whole results errs) = All (λ (e : SendError). e.error ≡ chat_not_allowed) errs
Hides (ignored event why) = Unit

pub write_multi_send-Hides :
    (ctx : Context) (results : List SendResult) (errs : List SendError) (code : ℕ)
    → ctx.key_scope ≢ []
    → Hides (write_multi_send results (sanitize_errors ctx errs) code)
unfolding write_multi_send
write_multi_send-Hides ctx [] errs code ne = (sanitize_errors-hidden ctx errs ne).0
write_multi_send-Hides ctx (r ∷ results) errs code ne = (sanitize_errors-hidden ctx errs ne).0

deny_chat-Hides :
    (to_lower : Text → Text) (ctx : Context) (why : Text)
    → ctx.key_scope ≢ []
    → Hides (deny_chat to_lower ctx why)
unfolding deny_chat
deny_chat-Hides to_lower ctx why ne = rw (nonempty ctx.key_scope ne, deny_chat) tt

check_targets-Hides :
    (to_lower : Text → Text) (chats : Text → Result Text ChatResult) (ctx : Context)
    (resolve : Bool) (targets : List Text) (response : Response)
    → ctx.key_scope ≢ []
    → check_targets to_lower chats ctx resolve targets ≡ some response
    → Hides response
unfolding check_targets
check_targets-Hides to_lower chats ctx resolve [] response ne h = absurd (cc)
check_targets-Hides to_lower chats ctx false (t ∷ targets) response ne h =
    elim (Bool-cases (is_uuid t && not (chat_allowed to_lower ctx t))) [
      | inl e ↦ subst Hides (eq_of_some (rw (e, check_targets) at h)) tt
      | inr e ↦
          check_targets-Hides to_lower chats ctx false targets response ne
            (rw (e, check_targets) at h)
    ]
check_targets-Hides to_lower chats ctx true (t ∷ targets) response ne h =
    elim (Result-cases (chats t)) [
      | inr (why, e) ↦
          subst Hides (eq_of_some (rw (e, check_targets) at h))
            (deny_chat-Hides to_lower ctx why ne)
      | inl (chat, e) ↦ elim (Bool-cases (chat_allowed to_lower ctx chat.chat_id)) [
        | inl k ↦
            check_targets-Hides to_lower chats ctx true targets response ne
              (rw (e, k, check_targets) at h)
        | inr k ↦ subst Hides (eq_of_some (rw (e, k, check_targets) at h)) tt
      ]
    ]

pub authorize_targets-Hides :
    (to_lower : Text → Text) (chats : Text → Result Text ChatResult) (ctx : Context)
    (resolve : Bool) (targets : List Text) (response : Response)
    → ctx.key_scope ≢ []
    → authorize_targets to_lower chats ctx targets resolve ≡ some response
    → Hides response
unfolding authorize_targets
authorize_targets-Hides to_lower chats ctx resolve targets response ne h =
    elim (Bool-cases (scoped ctx)) [
      | inr e ↦ absurd (let bad = rw (e, authorize_targets) at h in cc)
      | inl e ↦
          check_targets-Hides to_lower chats ctx resolve targets response ne
            (rw (e, authorize_targets) at h)
    ]
