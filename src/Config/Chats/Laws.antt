-- ===== src/Config/Chats/Laws.antt =====
-- What a resolved chat is.
use express_send.Common.{
  ◌≡◌, ◌≢◌, refl, sym, ap, ◌∙◌, subst, ◌⊎◌, ◌↔◌, inl, inr, Bool-cases, Option-cases, Result-cases,
  some, true, false, [], ◌∷◌, ok, ok-injective,
}
use express_send.Text.{Text, eqb, lookup}
use express_send.Text.Laws.{neq_of_eqb, eqb_of_neq}
use express_send.Server.Types.{is_uuid}
use express_send.Server.Types.Uuid.{IsUuid, is_uuid_iff}
use express_send.Config.Types.{ChatSettings, Config}
use express_send.Config.Chats.{
  Chats, resolve_chat_ref, resolve_chat_id_with_bot, default_chat, sole_chat, choose_chat,
  require_chat_id_with_bot,
}

not_uuid : (ref : Text) → ¬ IsUuid ref → is_uuid ref ≡ false
not_uuid ref other = elim (Bool-cases (is_uuid ref)) [
  | inl e ↦ absurd (other ((is_uuid_iff ref).0 e))
  | inr e ↦ e
]

-- A reference is resolved to an id and a binding exactly where it is a UUID, which stands for
-- itself and binds no bot, or an alias of a chat with an id, which has that id and binding.
pub resolve_chat_ref_iff :
    (chats : Chats) (ref id bot : Text)
    → (resolve_chat_ref chats ref ≡ ok (id, bot)) ↔ (
        (IsUuid ref × (id ≡ ref) × (bot ≡ []))
        ⊎ (¬ IsUuid ref
            × (chat : ChatSettings) × (lookup ref chats ≡ some chat)
            × (id ≢ [])
            × (id ≡ chat.id)
            × (bot ≡ chat.bot)))
unfolding resolve_chat_ref
resolve_chat_ref_iff chats ref id bot = (
  λ h. elim (Bool-cases (is_uuid ref)) [
    | inl e ↦
        let same = ok-injective (rw e at h) in
        inl ((is_uuid_iff ref).0 e, sym (ap (λ p. p.0) same), sym (ap (λ p. p.1) same))
    | inr e ↦ elim (Option-cases (lookup ref chats)) [
      | inl k ↦ absurd (let bad = rw (e, k) at h in cc)
      | inr (chat, k) ↦ elim (Bool-cases (eqb chat.id [])) [
        | inl m ↦ absurd (let bad = rw (e, k, m) at h in cc)
        | inr m ↦
            let same = ok-injective (rw (e, k, m) at h) in
            let at_id = ap (λ p. p.0) same in
            inr (
              λ uuid. absurd (let bad = sym e ∙ (is_uuid_iff ref).1 uuid in cc),
              chat,
              k,
              subst (λ x. x ≢ []) at_id (neq_of_eqb chat.id [] m),
              sym at_id,
              sym (ap (λ p. p.1) same),
            )
      ]
    ]
  ],
  λ h. elim h [
    | inl (uuid, same, unbound) ↦ rw ((is_uuid_iff ref).1 uuid, same, unbound) refl
    | inr (other, chat, k, ne, same, bound) ↦
        rw (not_uuid ref other, k, same, bound, eqb_of_neq chat.id [] (subst (λ x. x ≢ []) same ne))
          refl
  ],
)

resolve_chat_ref_nonempty :
    (chats : Chats) (ref id bot : Text) → resolve_chat_ref chats ref ≡ ok (id, bot) → id ≢ []
resolve_chat_ref_nonempty chats ref id bot h = elim ((resolve_chat_ref_iff chats ref id bot).0 h) [
  | inl (uuid, same, _) ↦ λ empty. absurd (
      let e = (is_uuid_iff ref).1 uuid in
      let bad : is_uuid [] ≡ true = rw (sym same ∙ empty) at e in
      let plain : is_uuid [] ≡ false = unfold is_uuid in refl in cc)
  | inr (_, _, _, ne, _, _) ↦ ne
]

sole_chat_nonempty :
    (c d : Config) (p : Text × ChatSettings) (bot : Text)
    → sole_chat c p ≡ ok (d, bot)
    → d.chat_id ≢ []
unfolding sole_chat
sole_chat_nonempty c d (alias, chat) bot h = elim (Bool-cases (eqb chat.id [])) [
  | inl e ↦ absurd (let bad = rw e at h in cc)
  | inr e ↦
      let same = ap (λ (r : Config × Text). r.0) (ok-injective (rw e at h)) in
      subst (λ x. x.chat_id ≢ []) same (neq_of_eqb chat.id [] e)
]

choose_chat_nonempty :
    (c d : Config) (chats : Chats) (bot : Text) → choose_chat c chats ≡ ok (d, bot) → d.chat_id ≢ []
unfolding choose_chat
choose_chat_nonempty c d [] bot h = absurd (cc)
choose_chat_nonempty c d (p ∷ []) bot h = sole_chat_nonempty c d p bot h
choose_chat_nonempty c d (p ∷ q ∷ more) bot h = elim (Option-cases (default_chat (p ∷ q ∷ more))) [
  | inl e ↦ absurd (let bad = rw (choose_chat, e) at h in cc)
  | inr (r, e) ↦ elim (Bool-cases (eqb r.0 [])) [
    | inl k ↦ absurd (let bad = rw (choose_chat, e, k) at h in cc)
    | inr k ↦ sole_chat_nonempty c d r bot (rw (choose_chat, e, k) at h)
  ]
]

resolve_chat_id_with_bot_nonempty :
    (c d : Config) (bot : Text)
    → c.chat_id ≢ []
    → resolve_chat_id_with_bot c ≡ ok (d, bot)
    → d.chat_id ≢ []
unfolding resolve_chat_id_with_bot
resolve_chat_id_with_bot_nonempty c d bot ne h =
    elim (Result-cases (resolve_chat_ref c.chats c.chat_id)) [
      | inr (why, e) ↦ absurd (let bad = rw (eqb_of_neq c.chat_id [] ne, e) at h in cc)
      | inl (found, e) ↦
          let same =
            ap (λ (r : Config × Text). r.0)
              (ok-injective (rw (eqb_of_neq c.chat_id [] ne, e) at h)) in
          subst (λ x. x.chat_id ≢ []) same
            (resolve_chat_ref_nonempty c.chats c.chat_id found.0 found.1 e)
    ]

-- Where a chat is required, the command has one: a configuration that passes has a chat id.
pub require_chat_id_with_bot_nonempty :
    (c d : Config) (bot : Text) → require_chat_id_with_bot c ≡ ok (d, bot) → d.chat_id ≢ []
unfolding require_chat_id_with_bot
require_chat_id_with_bot_nonempty c d bot h = elim (Result-cases (resolve_chat_id_with_bot c)) [
  | inr (why, e) ↦ absurd (let bad = rw (require_chat_id_with_bot, e) at h in cc)
  | inl (r, e) ↦ elim (Bool-cases (eqb r.0.chat_id [])) [
    | inl k ↦ choose_chat_nonempty r.0 d r.0.chats bot (rw (require_chat_id_with_bot, e, k) at h)
    | inr k ↦
        let same =
          ap (λ (r : Config × Text). r.0)
            (ok-injective (rw (require_chat_id_with_bot, e, k) at h)) in
        subst (λ x. x.chat_id ≢ []) same (neq_of_eqb r.0.chat_id [] k)
  ]
]
