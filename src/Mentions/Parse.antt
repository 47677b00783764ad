-- ===== src/Mentions/Parse.antt =====
-- `Parse`, `normalize` and `mergeMentions` of internal/mentions/parser.go. What the code calls
-- outside is a record: the user directory, the random identifiers and `encoding/json`.
pub mod Laws
use express_send.Common.{
  ℕ, suc, ◌+◌, Bool, true, false, if◌then◌else◌, leb, ltb, Option, none, some, List, [], ◌∷◌, ◌++◌,
  map, drop, length, Result, ok, err,
}
use express_send.Text.{Text, codes, eqb}
use express_send.Mentions.Scan.{TokenSpan, slice, raw, body, scan}
use express_send.Mentions.Token.{BodyError, ParsedToken, parse_token_body}

pub data Kind : Type 0 where
  parse lookup limit : Kind

-- The reasons that a `ParseError` gives, with what the text quotes.
pub data Cause : Type 0 where
  unclosed_token no_resolver : Cause
  bad_body : BodyError → Cause
  max_reached : ℕ → Cause
  unknown_resolver lookup_failed : Text → Cause

pub record ParseError : Type 0 where
  pub kind : Kind
  pub token : Text
  pub resolver : Text
  pub value : Text
  pub cause : Cause

pub record MentionData : Type 0 where
  pub user_huid : Text
  pub name : Text

pub record MentionEntry : Type 0 where
  pub mention_id : Text
  pub mention_type : Text
  pub mention_data : Option MentionData

-- `lookup_user k` answers the lookup made for the k-th well-formed token, by a huid and a name
-- or an error text; `new_mention_id k` is the identifier drawn for it.
pub record Outside : Type 0 where
  pub max_mentions : ℕ
  pub lookup_user : Option (ℕ → Text → Result Text (Text × Text))
  pub new_mention_id : ℕ → Text
  pub unmarshal_array : Text → List Text
  pub marshal_entry : MentionEntry → Text
  pub marshal_array : List Text → Text

module _ (env : Outside) where
  abbrev lookup_error : Text → Text → Cause → ParseError
  lookup_error raw value cause = record {
    kind = lookup;
    token = raw;
    resolver = codes "email";
    value = value;
    cause = cause;
  }

  abbrev user_entry : ℕ → Text → Text → MentionEntry
  user_entry k huid name = record {
    mention_id = env.new_mention_id k;
    mention_type = codes "user";
    mention_data = some (record { user_huid = huid; name = name });
  }

  abbrev resolved_entry : ℕ → ParsedToken → Text × Text → MentionEntry
  resolved_entry k pt (huid, name) =
      user_entry k huid (if eqb pt.display_name [] then name else pt.display_name)

  unfoldable pub normalize_email : ℕ → ParsedToken → Text → Result ParseError MentionEntry
  normalize_email k pt raw = elim env.lookup_user [
    | none ↦ err (lookup_error raw pt.value no_resolver)
    | some get_user ↦ elim (get_user k pt.value) [
      | err cause ↦ err (lookup_error raw pt.value (lookup_failed cause))
      | ok found ↦ ok (resolved_entry k pt found)
    ]
  ]

  unfoldable pub normalize_huid : ℕ → ParsedToken → Result ParseError MentionEntry
  normalize_huid k pt = ok (user_entry k pt.value pt.display_name)

  unfoldable pub normalize_all : ℕ → Result ParseError MentionEntry
  normalize_all k = ok (record {
    mention_id = env.new_mention_id k;
    mention_type = codes "all";
    mention_data = none;
  })

  unfoldable pub normalize : ℕ → ParsedToken → Text → Result ParseError MentionEntry
  unfolding normalize_email normalize_huid normalize_all
  normalize k pt raw =
      if eqb pt.resolver (codes "email")
      then normalize_email k pt raw
      else if eqb pt.resolver (codes "huid")
      then normalize_huid k pt
      else if eqb pt.resolver (codes "all")
      then normalize_all k
      else err (record {
        kind = parse;
        token = raw;
        resolver = [];
        value = [];
        cause = unknown_resolver pt.resolver;
      })

  unfoldable pub merge_mentions : Text → List MentionEntry → Text
  merge_mentions raw [] = raw
  merge_mentions raw (e ∷ parsed) =
      env.marshal_array
        ((if eqb raw [] then [] else env.unmarshal_array raw) ++ map env.marshal_entry (e ∷ parsed))

-- The text that stands for a mention.
unfoldable pub placeholder : MentionEntry → Text
placeholder e = codes "@{mention:" ++ (e.mention_id ++ codes "}")

-- The local variables of `Parse`.
pub record ParseState : Type 0 where
  pub buf : Text
  pub cursor : ℕ
  pub processed : ℕ
  pub limit_hit : Bool
  pub errs : List ParseError
  pub parsed : List MentionEntry

abbrev parse_error : Text → Cause → ParseError
parse_error raw cause = record {
  kind = parse;
  token = raw;
  resolver = [];
  value = [];
  cause = cause;
}

abbrev limit_error : ℕ → ParseError
limit_error most = record {
  kind = limit;
  token = [];
  resolver = [];
  value = [];
  cause = max_reached most;
}

-- A token that stays as it is, and one that is replaced; `s.buf` holds the text in front of it.
abbrev keep : Text → TokenSpan → ParseState → ParseState
keep msg tok s = record s { buf = s.buf ++ raw tok msg; cursor = tok.end }

abbrev add_error : ParseError → ParseState → ParseState
add_error e s = record s { errs = s.errs ++ e ∷ [] }

abbrev replace : TokenSpan → MentionEntry → ParseState → ParseState
replace tok e s = record s {
  buf = s.buf ++ placeholder e;
  cursor = tok.end;
  parsed = s.parsed ++ e ∷ [];
}

module _ (env : Outside) (msg : Text) where
  -- A well-formed token, counted already.
  unfoldable pub process_token : TokenSpan → ParsedToken → ParseState → ParseState
  unfolding normalize raw placeholder
  process_token tok pt s =
      if ltb env.max_mentions s.processed
      then keep msg tok (add_error (limit_error env.max_mentions) (record s { limit_hit = true }))
      else elim (normalize env s.processed pt (raw tok msg)) [
        | err e ↦ keep msg tok (add_error e s)
        | ok entry ↦ replace tok entry s
      ]

  -- One round of the loop over the tokens.
  unfoldable pub parse_token : ParseState → TokenSpan → ParseState
  unfolding process_token body
  parse_token s tok =
      let s' = record s { buf = s.buf ++ slice msg s.cursor tok.start } in
      if s.limit_hit
      then keep msg tok s'
      else if tok.unclosed
      then keep msg tok (add_error (parse_error (raw tok msg) unclosed_token) s')
      else elim (parse_token_body (body tok msg)) [
        | err e ↦ keep msg tok (add_error (parse_error (raw tok msg) (bad_body e)) s')
        | ok pt ↦ process_token tok pt (record s' { processed = s.processed + 1 })
      ]

  unfoldable pub parse_tokens : ParseState → List TokenSpan → ParseState
  unfolding parse_token
  parse_tokens s [] = s
  parse_tokens s (tok ∷ toks) = parse_tokens (parse_token s tok) toks

pub record ParseResult : Type 0 where
  pub message : Text
  pub mentions : Text
  pub errors : List ParseError

abbrev pub initial_state : ParseState
initial_state = record {
  buf = [];
  cursor = 0;
  processed = 0;
  limit_hit = false;
  errs = [];
  parsed = [];
}

-- The tokens that a message is found to hold. The scan never runs out of fuel, so that the
-- default is not used.
abbrev pub found_tokens : Option (List TokenSpan) → List TokenSpan
found_tokens none = []
found_tokens (some ts) = ts

unfoldable pub final_state : Outside → Text → ParseState
unfolding parse_tokens scan
final_state env msg =
    let s = parse_tokens env msg initial_state (found_tokens (scan env.max_mentions msg)) in
    record s { buf = s.buf ++ drop s.cursor msg }

-- The result for the tokens found: without any, the message and the mentions as they are given.
unfoldable pub result_for : Outside → Text → Text → List TokenSpan → ParseResult
unfolding merge_mentions
result_for env message raw_mentions [] = record {
  message = message;
  mentions = raw_mentions;
  errors = [];
}
result_for env message raw_mentions (_ ∷ _) =
    let s = final_state env message in
    record { message = s.buf; mentions = merge_mentions env raw_mentions s.parsed; errors = s.errs }

unfoldable pub parse_message : Outside → Text → Text → Bool → ParseResult
unfolding result_for final_state
parse_message env message raw_mentions false = record {
  message = message;
  mentions = raw_mentions;
  errors = [];
}
parse_message env message raw_mentions true =
    result_for env message raw_mentions (found_tokens (scan env.max_mentions message))
