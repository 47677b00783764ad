-- ===== src/Mentions/Scan.antt =====
-- The scanner for tokens: `scan` and `indexAt` of internal/mentions/parser.go.
pub mod Laws
use mathlib.Core.Option
use express_send.Common.{
  ℕ, zero, suc, ◌+◌, ◌*◌, ◌-◌, Bool, true, false, not, if◌then◌else◌, ltb, leb, ◌==◌, Option, none,
  some, List, [], ◌∷◌, length, take, drop,
}
use express_send.Text.{Text, codes, index}

abbrev pub token_prefix : Text
token_prefix = codes "@mention["

abbrev pub max_parsed_mentions : ℕ
max_parsed_mentions = 1000

-- Byte offsets in the message; `end` is behind the bracket, or where an unclosed token ends.
pub record TokenSpan : Type 0 where
  pub start : ℕ
  pub end : ℕ
  pub unclosed : Bool

-- `msg[i:j]`.
abbrev pub slice : Text → ℕ → ℕ → Text
slice msg i j = take (j - i) (drop i msg)

unfoldable pub raw : TokenSpan → Text → Text
raw t msg = slice msg t.start t.end

unfoldable pub body : TokenSpan → Text → Text
body t msg = slice msg (t.start + length token_prefix) (t.end - 1)

unfoldable pub index_at : Text → Text → ℕ → Option ℕ
unfolding index
index_at s sub offset =
    if leb (length s) offset then none else Option.map (λ i. offset + i) (index (drop offset s) sub)

-- Where the inner loop stops, and whether at a bracket.
pub record Close : Type 0 where
  pub at : ℕ
  pub closed : Bool

-- The inner loop of `scan` at offset `j`, over the bytes from there on.
unfoldable pub find_close : Text → ℕ → Close
find_close [] j = record { at = j; closed = false }
find_close (c ∷ s) j =
    let further = find_close s (j + 1) in
    if c == b']'
    then record { at = j; closed = true }
    else if c == b'\n'
    then record { at = j; closed = false }
    else further

-- The token whose prefix stands at `start`, and the offset at which the scan goes on.
unfoldable pub span_at : Text → ℕ → TokenSpan
unfolding find_close
span_at msg start =
    let body_start = start + length token_prefix in
    let found = find_close (drop body_start msg) body_start in
    record {
      start = start;
      end = if found.closed then found.at + 1 else found.at;
      unclosed = not found.closed;
    }

-- The outer loop at offset `i`, with `n` spans behind it. `none` means that the fuel ran out.
unfoldable pub scan_from : ℕ → Text → ℕ → ℕ → ℕ → Option (List TokenSpan)
unfolding span_at index_at
scan_from zero msg limit n i = none
scan_from (suc fuel) msg limit n i =
    if ltb i (length msg)
    then elim (index_at msg token_prefix i) [
      | none ↦ some []
      | some idx ↦
          let span = span_at msg idx in
          let rest = scan_from fuel msg limit (n + 1) span.end in
          if leb limit (n + 1) then some (span ∷ []) else Option.map (λ ss. span ∷ ss) rest
    ]
    else some []

-- The limit on tokens is twice that on mentions.
unfoldable pub scan : ℕ → Text → Option (List TokenSpan)
unfolding scan_from
scan max_mentions msg = scan_from (suc (length msg)) msg (2 * max_mentions) 0 0
