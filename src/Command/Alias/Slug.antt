-- ===== src/Command/Alias/Slug.antt =====
-- The form of a slug.
use express_send.Common.{
  ◌≡◌, ◌≢◌, refl, sym, ◌∙◌, inl, inr, Bool-cases, Bool, true, false, ◌&&◌, not, if◌then◌else◌, ◌⊎◌,
  ℕ, ◌==◌, [], ◌∷◌, arith,
}
use express_send.Text.{Text, eqb}
use express_send.Text.Laws.{eqb_iff, neq_of_eqb}
use express_send.Command.Alias.{is_slug_char, slug_from, trim_hyphens, slugify_chat_alias}

-- Runs of letters and digits between single hyphens; `begun` where a run has begun, so that the text may
-- end or go on with a hyphen.
unfoldable pub is_slug : Bool → Text → Bool
is_slug begun [] = begun
is_slug begun (c ∷ s) =
    let run = is_slug true s in
    let next = is_slug false s in if is_slug_char c then run else begun && (c == b'-') && next

-- The same, with a hyphen at the end allowed.
unfoldable begins_slug : Bool → Text → Bool
begins_slug begun [] = true
begins_slug begun (c ∷ s) =
    let run = begins_slug true s in
    let next = begins_slug false s in if is_slug_char c then run else begun && (c == b'-') && next

begins_char :
    (begun : Bool) (c : ℕ) (s : Text)
    → is_slug_char c ≡ true
    → begins_slug true s ≡ true
    → begins_slug begun (c ∷ s) ≡ true
unfolding begins_slug
begins_char begun c s e h = rw (e, begins_slug) h

begins_hyphen : (s : Text) → begins_slug false s ≡ true → begins_slug true (b'-' ∷ s) ≡ true
unfolding begins_slug
begins_hyphen s h = h

slug_from-begins : (last : Bool) (s : Text) → begins_slug (not last) (slug_from last s) ≡ true
unfolding slug_from
slug_from-begins last [] = unfold begins_slug in refl
slug_from-begins true (c ∷ s) = elim (Bool-cases (is_slug_char c)) [
  | inl e ↦ rw (e, slug_from) (begins_char false c (slug_from false s) e (slug_from-begins false s))
  | inr e ↦ rw (e, slug_from) (slug_from-begins true s)
]
slug_from-begins false (c ∷ s) = elim (Bool-cases (is_slug_char c)) [
  | inl e ↦ rw (e, slug_from) (begins_char true c (slug_from false s) e (slug_from-begins false s))
  | inr e ↦ rw (e, slug_from) (begins_hyphen (slug_from true s) (slug_from-begins true s))
]

-- What a text that begins a slug starts with.
begins_cases :
    (begun : Bool) (c : ℕ) (s : Text)
    → begins_slug begun (c ∷ s) ≡ true
    → ((is_slug_char c ≡ true) × (begins_slug true s ≡ true))
      ⊎ ((is_slug_char c ≡ false)
          × (begun ≡ true)
          × ((c == b'-') ≡ true)
          × (begins_slug false s ≡ true))
unfolding begins_slug
begins_cases begun c s h = elim (Bool-cases (is_slug_char c)) [
  | inl e ↦ inl (e, rw (e, begins_slug) at h)
  | inr e ↦
      let rest : (begun && (c == b'-') && begins_slug false s) ≡ true = rw (e, begins_slug) at h in
      inr (e, ground (arith, rest), ground (arith, rest), ground (arith, rest))
]

slug_char :
    (begun : Bool) (c : ℕ) (s : Text)
    → is_slug_char c ≡ true
    → is_slug true s ≡ true
    → is_slug begun (c ∷ s) ≡ true
unfolding is_slug
slug_char begun c s e h = rw (e, is_slug) h

slug_hyphen :
    (begun : Bool) (c : ℕ) (s : Text)
    → is_slug_char c ≡ false
    → begun ≡ true
    → (c == b'-') ≡ true
    → is_slug false s ≡ true
    → is_slug begun (c ∷ s) ≡ true
unfolding is_slug
slug_hyphen begun c s e o k h = rw (e, o, k, is_slug) h

slug_end : (s : Text) → s ≡ [] → is_slug true s ≡ true
unfolding is_slug
slug_end s h = rw h refl

trim_hyphens-is_slug :
    (begun : Bool) (s : Text)
    → begins_slug begun s ≡ true
    → trim_hyphens s ≢ []
    → is_slug begun (trim_hyphens s) ≡ true
unfolding trim_hyphens
trim_hyphens-is_slug begun [] h ne = absurd (ne refl)
trim_hyphens-is_slug begun (c ∷ s) h ne = elim (Bool-cases (eqb (trim_hyphens s) [])) [
  | inl e ↦ elim (Bool-cases (c == b'-')) [
    | inl k ↦ absurd (ne (rw (e, k, trim_hyphens) refl))
    | inr k ↦ elim (begins_cases begun c s h) [
      | inl (char, _) ↦
          rw (e, k, trim_hyphens)
            (slug_char begun c (trim_hyphens s) char
              (slug_end (trim_hyphens s) ((eqb_iff (trim_hyphens s) []).0 e)))
      | inr (_, _, hyphen, _) ↦ absurd (let bad = sym k ∙ hyphen in cc)
    ]
  ]
  | inr e ↦
      let more = neq_of_eqb (trim_hyphens s) [] e in
      elim (begins_cases begun c s h) [
        | inl (char, rest) ↦
            rw (e, trim_hyphens)
              (slug_char begun c (trim_hyphens s) char (trim_hyphens-is_slug true s rest more))
        | inr (other, o, hyphen, rest) ↦
            rw (e, trim_hyphens)
              (slug_hyphen begun c (trim_hyphens s) other o hyphen
                (trim_hyphens-is_slug false s rest more))
      ]
]

-- A slug that is not empty is made of runs of letters and digits between single hyphens, whatever
-- the name of the chat is.
pub slugify_chat_alias-is_slug :
    (plain : Text → Text) (name : Text)
    → slugify_chat_alias plain name ≢ []
    → is_slug false (slugify_chat_alias plain name) ≡ true
unfolding slugify_chat_alias
slugify_chat_alias-is_slug plain name ne =
    trim_hyphens-is_slug false (slug_from true (plain name)) (slug_from-begins true (plain name)) ne
