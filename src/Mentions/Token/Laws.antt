-- ===== src/Mentions/Token/Laws.antt =====
-- The bodies that are tokens, and what they are read as.
use express_send.Common.{
  ℕ, ◌<◌, true, false, if◌then◌else◌, none, some, [], ◌∷◌, ◌++◌, ◌≡◌, ◌≢◌, ◌⊎◌, inl, inr, refl, sym,
  ◌∙◌, arith, length, ok, ◌>>=◌, All, Bool-cases, drop_behind, take-append_length, append-nil,
  subst,
}
use express_send.Text.{Text, codes, eqb, has_prefix, index}
use express_send.Text.Laws.{eqb_iff}
use express_send.Text.Query.{query_escape}
use express_send.Text.Query.Laws.{query_unescape-query_escape, query_escape-IsFree}
use express_send.Mentions.Token.{
  ParsedToken, split_value, parse_token_body, finish_token, decode_name,
}

-- A body as a client writes it.
pub token_body : ParsedToken → Text
token_body t =
    if eqb t.resolver (codes "all")
    then codes "all"
    else t.resolver
      ++ (b':'
          ∷ (t.value ++ (if eqb t.display_name [] then [] else b';' ∷ query_escape t.display_name)))

-- A token that can be written: it addresses everybody, or a user by a value with no semicolon.
pub record IsWritable (t : ParsedToken) : Type 0 where
  pub known :
      ((t.resolver ≡ codes "all") × (t.value ≡ []) × (t.display_name ≡ []))
      ⊎ (((t.resolver ≡ codes "email") ⊎ (t.resolver ≡ codes "huid")) × (t.value ≢ []))
  pub value_free : All (λ c. c ≢ b';') t.value
  pub name_bytes : All (λ c. c < 256) t.display_name

-- The first byte `b` of a text stands behind the part that lacks it.
index_byte :
    (b : ℕ) (w r : Text) → All (λ c. c ≢ b) w → index (w ++ b ∷ r) (b ∷ []) ≡ some (length w)
unfolding index has_prefix
index_byte b [] r h = ground arith
index_byte b (c ∷ w) r h = ground (arith, index_byte b w r h.1)

index_byte_none : (b : ℕ) (w : Text) → All (λ c. c ≢ b) w → index w (b ∷ []) ≡ none
unfolding index has_prefix
index_byte_none b [] h = ground arith
index_byte_none b (c ∷ w) h = ground (arith, index_byte_none b w h.1)

split_value_bare : (v : Text) → All (λ c. c ≢ b';') v → split_value v ≡ ok (v, [])
unfolding split_value
split_value_bare v h = rw (index_byte_none b';' v h, split_value)

split_value_named :
    (v name : Text)
    → All (λ c. c ≢ b';') v
    → All (λ c. c < 256) name
    → split_value (v ++ b';' ∷ query_escape name) ≡ ok (v, name)
unfolding split_value
split_value_named v name h k =
    rw (index_byte b';' v (query_escape name) h, split_value)
      (rw (drop_behind v b';' (query_escape name)) (
        rw (index_byte_none b';' (query_escape name) (query_escape-IsFree name)) (
          rw (query_unescape-query_escape name k, decode_name)
            (rw (take-append_length v (b';' ∷ query_escape name))))))

split_value_of_IsWritable :
    (v name : Text)
    → All (λ c. c ≢ b';') v
    → All (λ c. c < 256) name
    → split_value (v ++ (if eqb name [] then [] else b';' ∷ query_escape name)) ≡ ok (v, name)
split_value_of_IsWritable v name h k = elim (Bool-cases (eqb name [])) [
  | inl e ↦ rw e (rw append-nil (rw ((eqb_iff name []).0 e) (split_value_bare v h)))
  | inr e ↦ rw e (split_value_named v name h k)
]

abbrev ParsesAs : Text → Text → Type 0
ParsesAs rest resolver =
    parse_token_body (resolver ++ b':' ∷ rest) ≡ (split_value rest >>= λ p. finish_token resolver p)

parse_email_body : (rest : Text) → ParsesAs rest (codes "email")
unfolding parse_token_body eqb
parse_email_body rest = refl

parse_huid_body : (rest : Text) → ParsesAs rest (codes "huid")
unfolding parse_token_body eqb
parse_huid_body rest = refl

-- A body with one of the two resolvers in front of a colon.
parse_user_body :
    (resolver rest : Text)
    → (resolver ≡ codes "email") ⊎ (resolver ≡ codes "huid")
    → parse_token_body (resolver ++ b':' ∷ rest)
      ≡ (split_value rest >>= λ p. finish_token resolver p)
parse_user_body resolver rest (inl e) = subst (ParsesAs rest) (sym e) (parse_email_body rest)
parse_user_body resolver rest (inr e) = subst (ParsesAs rest) (sym e) (parse_huid_body rest)

user_ne_all :
    (resolver : Text)
    → (resolver ≡ codes "email") ⊎ (resolver ≡ codes "huid")
    → eqb resolver (codes "all") ≡ false
unfolding eqb
user_ne_all resolver (inl e) = rw e refl
user_ne_all resolver (inr e) = rw e refl

written_all :
    (t : ParsedToken)
    → t.resolver ≡ codes "all"
    → t.value ≡ []
    → t.display_name ≡ []
    → parse_token_body (token_body t) ≡ ok t
unfolding token_body parse_token_body
written_all t all no_value no_name =
    let same : eqb t.resolver (codes "all") ≡ true = (eqb_iff t.resolver (codes "all")).1 all in
    rw same (ground arith)

eqb_ne : (s t : Text) → s ≢ t → eqb s t ≡ false
eqb_ne s t h = elim (Bool-cases (eqb s t)) [ inl e ↦ absurd (h ((eqb_iff s t).0 e)) | inr e ↦ e ]

-- Whatever can be written is read back, the display name decoded.
pub parse_token_body-token_body :
    (t : ParsedToken) → IsWritable t → parse_token_body (token_body t) ≡ ok t
unfolding token_body
parse_token_body-token_body t w = elim w.known [
  | inl (all, no_value, no_name) ↦ written_all t all no_value no_name
  | inr (user, has_value) ↦ rw (user_ne_all t.resolver user) (
      parse_user_body t.resolver _ user
      ∙ rw (split_value_of_IsWritable t.value t.display_name w.value_free w.name_bytes)
          (rw (eqb_ne t.value [] has_value)))
]
