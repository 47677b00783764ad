-- ===== src/Command/Import/Laws.antt =====
-- What an import leaves as it was.
use express_send.Common.{
  ◌≡◌, sym, ap, ◌∙◌, inl, inr, Bool-cases, Option-cases, >>=-eq-ok, ok-injective, false, some, ok,
  List, [], ◌∷◌, ℕ,
}
use express_send.Text.{Text, eqb, lookup}
use express_send.Text.Laws.{eqb_iff}
use express_send.Text.Maps.{lookup-map_set_other}
use express_send.Config.Types.{ChatSettings}
use express_send.Command.Alias.{generate_chat_alias}
use express_send.Command.Import.{
  ChatInfo, ImportOpts, Import, import_existing, import_under, import_chat, import_chats,
}

-- The chats that were configured still are, under the same aliases and with the same settings.
pub Kept : Import → Import → Type 0
Kept s s' = (k : Text) (v : ChatSettings) → lookup k s.chats ≡ some v → lookup k s'.chats ≡ some v

module _ (plain : Text → Text) (decimal : ℕ → Text) (o : ImportOpts)
    (careful : o.overwrite ≡ false) where
  import_existing-Kept :
      (chat : ChatInfo) (alias : Text) (existing : ChatSettings) (s t : Import)
      → import_existing plain decimal o chat alias existing s ≡ ok t
      → Kept s t
  unfolding import_existing Kept
  import_existing-Kept chat alias existing s t h k v at_k =
      elim (Bool-cases (eqb existing.id chat.group_chat_id)) [
        | inl e ↦
            ap (λ (x : Import). lookup k x.chats)
              (sym (ok-injective (rw (e, import_existing) at h)))
            ∙ at_k
        | inr e ↦ elim (Bool-cases o.skip_existing) [
          | inl f ↦
              ap (λ (x : Import). lookup k x.chats)
                (sym (ok-injective (rw (e, f, import_existing) at h)))
              ∙ at_k
          | inr f ↦ absurd (let bad = rw (e, f, careful, import_existing) at h in cc)
        ]
      ]

  import_under-Kept :
      (chat : ChatInfo) (alias : Text) (s t : Import)
      → import_under plain decimal o chat alias s ≡ ok t
      → Kept s t
  unfolding import_under
  import_under-Kept chat alias s t h = elim (Option-cases (lookup alias s.chats)) [
    | inr (existing, e) ↦
        import_existing-Kept chat alias existing s t (let h' = rw (e, import_under) at h in h')
    | inl e ↦
        let same = ok-injective (rw (e, import_under) at h) in
        unfold Kept in
        (λ k v at_k. elim (Bool-cases (eqb alias k)) [
          | inl f ↦
              absurd
                (let bad = sym e ∙ ap (λ x. lookup x s.chats) ((eqb_iff alias k).0 f) ∙ at_k in cc)
          | inr f ↦
              ap (λ (x : Import). lookup k x.chats) (sym same)
              ∙ lookup-map_set_other alias k _ s.chats f
              ∙ at_k
        ])
  ]

  import_chat-Kept :
      (chat : ChatInfo) (s t : Import) → import_chat plain decimal o chat s ≡ ok t → Kept s t
  unfolding import_chat
  import_chat-Kept chat s t h = elim (Option-cases (lookup chat.group_chat_id s.id_index)) [
    | inr (alias, e) ↦
        let same = ok-injective (rw (e, import_chat) at h) in
        unfold Kept in (λ k v at_k. ap (λ (x : Import). lookup k x.chats) (sym same) ∙ at_k)
    | inl e ↦
        elim (Option-cases
          (generate_chat_alias plain decimal chat.name chat.group_chat_id o.prefix s.generated)) [
            | inl f ↦ absurd (let bad = rw (e, f, import_chat) at h in cc)
            | inr (alias, f) ↦
                import_under-Kept chat alias s t (let h' = rw (e, f, import_chat) at h in h')
          ]
  ]

  -- Without --overwrite, an import that succeeds keeps every chat that is configured, under its alias and
  -- with its settings.
  pub import_chats-Kept :
      (chats : List ChatInfo) (s t : Import)
      → import_chats plain decimal o chats s ≡ ok t
      → Kept s t
  unfolding import_chats Kept
  import_chats-Kept [] s t h k v at_k =
      ap (λ (x : Import). lookup k x.chats) (sym (ok-injective h)) ∙ at_k
  import_chats-Kept (chat ∷ chats) s t h k v at_k =
      let (mid, first, rest) = >>=-eq-ok (import_chat plain decimal o chat s) _ h in
      import_chats-Kept chats mid t rest k v (import_chat-Kept chat s mid first k v at_k)
