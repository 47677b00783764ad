-- ===== src/Tests/Mentions.antt =====
-- The theorems on mentions at concrete inputs.
use express_send.Common.{◌*◌, true, none, some, List, [], ◌≡◌, inl, inr, refl, arith, ok}
use express_send.Text.{Text, codes}
use express_send.Mentions.Scan.{TokenSpan, scan}
use express_send.Mentions.Scan.Laws.{Tokens, scan-Tokens}
use express_send.Mentions.Token.{ParsedToken, parse_token_body}
use express_send.Mentions.Token.Laws.{token_body, IsWritable, parse_token_body-token_body}
use express_send.Mentions.Parse.{
  Outside, MentionEntry, merge_mentions, parse_message, final_state, found_tokens,
}
use express_send.Mentions.Parse.Laws.{Rewrites, parse_message-Rewrites}
use express_send.Mentions.Parse.Laws.Accounts.{Accounts, final_state-Accounts}

abbrev message : Text
message = codes "hi @mention[all], @mention[x"

scan-Tokens_example :
    (spans : List TokenSpan) × (scan 50 message ≡ some spans) × Tokens message (2 * 50) 0 0 spans
scan-Tokens_example = scan-Tokens 50 message (omega arith)

abbrev kim : ParsedToken
kim = record { resolver = codes "email"; value = codes "k@x"; display_name = codes "K; M" }

kim-IsWritable : IsWritable kim
kim-IsWritable = record {
  known = inr (inl refl, λ e. cc);
  value_free = (λ e. omega arith, (λ e. omega arith, (λ e. omega arith, tt)));
  name_bytes = (omega arith, (omega arith, (omega arith, (omega arith, tt))));
}

parse_token_body-token_body_example : parse_token_body (token_body kim) ≡ ok kim
parse_token_body-token_body_example = parse_token_body-token_body kim kim-IsWritable

abbrev outside : Outside
outside = record {
  max_mentions = 50;
  lookup_user = none;
  new_mention_id = λ k. codes "id";
  unmarshal_array = λ s. [];
  marshal_entry = λ e. codes "{}";
  marshal_array = λ es. codes "[]";
}

parse_message-Rewrites_example :
    (entries : List MentionEntry) × Rewrites outside message
      (parse_message outside message [] true).message
      entries
    × ((parse_message outside message [] true).mentions ≡ merge_mentions outside [] entries)
parse_message-Rewrites_example = parse_message-Rewrites outside message [] true (omega arith)

final_state-Accounts_example :
    Accounts outside message 0
      (found_tokens (scan 50 message))
      (final_state outside message).parsed
      (final_state outside message).errs
final_state-Accounts_example = final_state-Accounts outside message
