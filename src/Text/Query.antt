-- ===== src/Text/Query.antt =====
-- `url.QueryUnescape` of Go's `net/url`, and an encoder of the form that it reads.
pub mod Laws
use express_send.Common.{
  ℕ, ◌+◌, ◌-◌, ◌*◌, ◌/◌, ◌%◌, ◌<◌, Bool, true, false, ◌&&◌, ◌||◌, if◌then◌else◌, leb, ltb, ◌==◌,
  List, [], ◌∷◌, ◌++◌, ◌≡◌, ◌≢◌, refl, arith, Result, ok, err, ◌>>=◌, All, Bool-cases, ==_iff,
}
use express_send.Text.{Text, codes}

abbrev pub within : ℕ → ℕ → ℕ → Bool
within lo hi c = leb lo c && leb c hi

unfoldable pub is_hex : ℕ → Bool
is_hex c = within b'0' b'9' c || within b'a' b'f' c || within b'A' b'F' c

unfoldable pub unhex : ℕ → ℕ
unhex c =
    if within b'0' b'9' c
    then c - b'0'
    else if within b'a' b'f' c
    then c - b'a' + 10
    else if within b'A' b'F' c
    then c - b'A' + 10
    else 0

abbrev pub plus_to_space : ℕ → ℕ
plus_to_space c = if c == b'+' then b' ' else c

abbrev pub push_byte : ℕ → Result Text Text → Result Text Text
push_byte c r = r >>= λ s. ok (c ∷ s)

-- The error carries the malformed escape.
unfoldable pub query_unescape : Text → Result Text Text
unfolding is_hex unhex
query_unescape [] = ok []
query_unescape (c ∷ []) = if c == b'%' then err (c ∷ []) else ok (plus_to_space c ∷ [])
query_unescape (c ∷ a ∷ []) =
    let rest = query_unescape (a ∷ []) in
    if c == b'%' then err (c ∷ a ∷ []) else push_byte (plus_to_space c) rest
query_unescape (c ∷ a ∷ b ∷ s) =
    let behind = query_unescape s in
    let rest = query_unescape (a ∷ b ∷ s) in
    if c == b'%'
    then if is_hex a && is_hex b
      then push_byte (unhex a * 16 + unhex b) behind
      else err (c ∷ a ∷ b ∷ [])
    else push_byte (plus_to_space c) rest

-- A byte as a client writes it: letters and digits as they are, any other as `%XX`.
abbrev pub hex_digit : ℕ → ℕ
hex_digit n = if ltb n 10 then b'0' + n else b'A' + n - 10

unfoldable pub is_alnum : ℕ → Bool
is_alnum c = within b'a' b'z' c || within b'A' b'Z' c || within b'0' b'9' c

unfoldable pub escape_byte : ℕ → Text
escape_byte c = if is_alnum c then c ∷ [] else b'%' ∷ hex_digit (c / 16) ∷ hex_digit (c % 16) ∷ []

unfoldable pub query_escape : Text → Text
unfolding escape_byte
query_escape [] = []
query_escape (c ∷ s) = escape_byte c ++ query_escape s
