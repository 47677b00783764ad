-- ===== src/Mentions/Token.antt =====
-- The grammar of a token's body: `parseTokenBody` of internal/mentions/parser.go.
pub mod Laws
use express_send.Common.{
  ℕ, ◌+◌, Bool, true, false, ◌&&◌, ◌||◌, not, if◌then◌else◌, Option, none, some, List, [], ◌∷◌,
  ◌++◌, take, drop, Result, ok, err, ◌>>=◌,
}
use express_send.Text.{Text, codes, eqb, has_prefix, index, is_some}
use express_send.Text.Query.{query_unescape}

-- The errors of `parseTokenBody`, with the text that the message quotes.
pub data BodyError : Type 0 where
  all_with_value : BodyError
  unknown_resolver : Text → BodyError
  raw_semicolon : BodyError
  invalid_encoding : Text → BodyError
  empty_value : Text → BodyError

pub record ParsedToken : Type 0 where
  pub resolver : Text
  pub value : Text
  pub display_name : Text

abbrev pub decode_name : Text → Result BodyError Text
decode_name raw = elim (query_unescape raw) [
  | ok name ↦ ok name
  | err piece ↦ err (invalid_encoding piece)
]

-- The value and the display name behind the colon.
unfoldable pub split_value : Text → Result BodyError (Text × Text)
unfolding index query_unescape
split_value rest = elim (index rest (codes ";")) [
  | none ↦ ok (rest, [])
  | some semi_idx ↦
      let raw = drop (semi_idx + 1) rest in
      if is_some (index raw (codes ";"))
      then err raw_semicolon
      else decode_name raw >>= λ name. ok (take semi_idx rest, name)
]

abbrev pub finish_token : Text → Text × Text → Result BodyError ParsedToken
finish_token resolver (value, name) =
    if eqb value []
    then err (empty_value resolver)
    else ok (record { resolver = resolver; value = value; display_name = name })

unfoldable pub parse_token_body : Text → Result BodyError ParsedToken
unfolding index split_value
parse_token_body body =
    if eqb body (codes "all")
    then ok (record { resolver = codes "all"; value = []; display_name = [] })
    else elim (index body (codes ":")) [
      | none ↦
          if has_prefix body (codes "all;") then err all_with_value else err (unknown_resolver body)
      | some colon_idx ↦
          let resolver = take colon_idx body in
          if not (eqb resolver (codes "email")) && not (eqb resolver (codes "huid"))
          then err (unknown_resolver resolver)
          else split_value (drop (colon_idx + 1) body) >>= finish_token resolver
    ]
