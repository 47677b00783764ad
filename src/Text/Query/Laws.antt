-- ===== src/Text/Query/Laws.antt =====
-- Decoding inverts encoding.
use express_send.Common.{
  ℕ, zero, suc, ◌+◌, ◌*◌, ◌/◌, ◌%◌, ◌<◌, Bool, true, false, if◌then◌else◌, ◌&&◌, ◌==◌, [], ◌∷◌,
  ◌++◌, ◌≡◌, ◌≢◌, refl, ◌∙◌, inl, inr, arith, ok, All, Bool-cases, ==_iff, ap, All-append,
}
use express_send.Text.{Text}
use express_send.Text.Query.{
  hex_digit, push_byte, is_hex, unhex, query_unescape, is_alnum, escape_byte, query_escape,
}

-- Does a test on bytes pass for each byte in front of the limit?
passes_each : (ℕ → Bool) → ℕ → Bool
passes_each test zero = true
passes_each test (suc limit) =
    let rest = passes_each test limit in if test limit then rest else false

passes_each-at :
    (test : ℕ → Bool) (byte limit : ℕ)
    → byte < limit
    → passes_each test limit ≡ true
    → test byte ≡ true
unfolding passes_each
passes_each-at test byte zero below passed = absurd (omega arith)
passes_each-at test byte (suc limit) below passed =
    let rest = passes_each-at test byte limit in ground arith

digits_hex : ℕ → Bool
digits_hex c = is_hex (hex_digit (c / 16)) && is_hex (hex_digit (c % 16))

digits_back : ℕ → ℕ
digits_back c = unhex (hex_digit (c / 16)) * 16 + unhex (hex_digit (c % 16))

digits_table : passes_each (λ c. digits_hex c && digits_back c == c) 256 ≡ true
unfolding passes_each digits_hex digits_back is_hex unhex
digits_table = refl

digits_facts :
    (c : ℕ)
    → c < 256
    → ((is_hex (hex_digit (c / 16)) && is_hex (hex_digit (c % 16))) ≡ true)
      × (unhex (hex_digit (c / 16)) * 16 + unhex (hex_digit (c % 16)) ≡ c)
unfolding digits_hex digits_back
digits_facts c lt =
    let at = passes_each-at _ c 256 lt digits_table in
    (ground arith, ground (arith, ==_iff (digits_back c) c))

query_unescape_plain :
    (c : ℕ) (s : Text)
    → (c ≢ b'%')
    → (c ≢ b'+')
    → query_unescape (c ∷ s) ≡ push_byte c (query_unescape s)
unfolding query_unescape
query_unescape_plain c [] p q = ground arith
query_unescape_plain c (a ∷ []) p q = ground arith
query_unescape_plain c (a ∷ b ∷ s) p q = ground arith

query_unescape_percent :
    (a b : ℕ) (s : Text)
    → (is_hex a && is_hex b) ≡ true
    → query_unescape (b'%' ∷ a ∷ b ∷ s) ≡ push_byte (unhex a * 16 + unhex b) (query_unescape s)
unfolding query_unescape
query_unescape_percent a b s h = rw (h, query_unescape)

alnum_plain : (c : ℕ) → is_alnum c ≡ true → (c ≢ b'%') × (c ≢ b'+')
unfolding is_alnum
alnum_plain c h = ground arith

query_unescape-escape_byte :
    (c : ℕ) (s : Text)
    → c < 256
    → query_unescape (escape_byte c ++ s) ≡ push_byte c (query_unescape s)
unfolding escape_byte
query_unescape-escape_byte c s lt = elim (Bool-cases (is_alnum c)) [
  | inl e ↦ rw e (let plain = alnum_plain c e in query_unescape_plain c s plain.0 plain.1)
  | inr e ↦
      let (hex, back) = digits_facts c lt in
      rw e (
        query_unescape_percent (hex_digit (c / 16)) (hex_digit (c % 16)) s hex
        ∙ ap (λ d. push_byte d (query_unescape s)) back)
]

-- Decoding gives back every encoded text.
pub query_unescape-query_escape :
    (s : Text) → All (λ c. c < 256) s → query_unescape (query_escape s) ≡ ok s
unfolding query_escape
query_unescape-query_escape [] h = unfold query_unescape in refl
query_unescape-query_escape (c ∷ s) h =
    query_unescape-escape_byte c (query_escape s) h.0 ∙ rw (query_unescape-query_escape s h.1)

-- An encoded text holds no semicolon.
abbrev IsFree : Text → Type 0
IsFree = All (λ x. x ≢ b';')

escape_byte-IsFree : (c : ℕ) → IsFree (escape_byte c)
unfolding escape_byte is_alnum
escape_byte-IsFree c = ground arith

pub query_escape-IsFree : (s : Text) → All (λ x. x ≢ b';') (query_escape s)
unfolding query_escape
query_escape-IsFree [] = tt
query_escape-IsFree (c ∷ s) =
    All-append _ (escape_byte c) (query_escape s) (escape_byte-IsFree c) (query_escape-IsFree s)
