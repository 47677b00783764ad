-- ===== src/Mentions/Parse/Laws/Counts.antt =====
-- How many mentions and errors `Parse` returns.
use express_send.Common.{
  ℕ, suc, ◌+◌, ◌≤◌, ◌<◌, false, ltb, List, [], ◌∷◌, ◌++◌, ◌≡◌, ◌∙◌, subst, arith, length,
  length-append, Bool-cases, Result-cases, inl, inr,
}
use express_send.Text.{Text}
use express_send.Mentions.Scan.{TokenSpan, raw, body, slice, scan}
use express_send.Mentions.Token.{ParsedToken, parse_token_body}
use express_send.Mentions.Parse.{
  Outside, ParseState, normalize, process_token, parse_token, parse_tokens, initial_state,
  final_state, found_tokens,
}

-- After `seen` tokens. Until the limit is hit, each token is a mention or an error.
record Counted (most : ℕ) (s : ParseState) (seen : ℕ) : Type 0 where
  parsed_le : length s.parsed ≤ most
  room : s.limit_hit ≡ false → length s.parsed ≤ s.processed
  budget : s.limit_hit ≡ false → s.processed ≤ most
  each : s.limit_hit ≡ false → length s.parsed + length s.errs ≡ seen

length-push {ℓ} : {A : Type ℓ} (xs : List A) (x : A) → length (xs ++ x ∷ []) ≡ length xs + 1
length-push xs x = length-append xs (x ∷ [])

module _ (env : Outside) (msg : Text) where
  process_token-Counted :
      (s : ParseState) (t : TokenSpan) (pt : ParsedToken) (seen : ℕ)
      → s.limit_hit ≡ false
      → length s.parsed < s.processed
      → length s.parsed ≤ env.max_mentions
      → length s.parsed + length s.errs ≡ seen
      → Counted env.max_mentions (process_token env msg t pt s) (seen + 1)
  unfolding process_token
  process_token-Counted s t pt seen unlimited lt le total =
      elim (Bool-cases (ltb env.max_mentions s.processed)) [
        | inl e ↦ rw e (record {
          parsed_le = le;
          room = λ bad. absurd (cc);
          budget = λ bad. absurd (cc);
          each = λ bad. absurd (cc);
        })
        | inr e ↦
            let within : s.processed ≤ env.max_mentions = ground arith in
            elim (Result-cases (normalize env s.processed pt (raw t msg))) [
              | inl (entry, done) ↦
                  let one = length-push s.parsed entry in
                  rw (e, done, process_token)
                    (record {
                      parsed_le = omega (arith, one);
                      room = λ _. omega (arith, one);
                      budget = λ _. within;
                      each = λ _. omega (arith, one);
                    })
              | inr (why, failed) ↦
                  let one = length-push s.errs why in
                  rw (e, failed, process_token)
                    (record {
                      parsed_le = le;
                      room = λ _. omega arith;
                      budget = λ _. within;
                      each = λ _. omega (arith, one);
                    })
            ]
      ]

  -- The state when a well-formed token is looked at.
  abbrev counted : ParseState → TokenSpan → ParseState
  counted s t = record s { buf = s.buf ++ slice msg s.cursor t.start; processed = s.processed + 1 }

  parse_token-Counted :
      (s : ParseState) (t : TokenSpan) (seen : ℕ)
      → Counted env.max_mentions s seen
      → Counted env.max_mentions (parse_token env msg s t) (seen + 1)
  unfolding parse_token
  parse_token-Counted s t seen c = elim (Bool-cases s.limit_hit) [
    | inl e ↦ rw e (record {
      parsed_le = c.parsed_le;
      room = λ bad. absurd (cc);
      budget = λ bad. absurd (cc);
      each = λ bad. absurd (cc);
    })
    | inr e ↦ elim (Bool-cases t.unclosed) [
      | inl e' ↦
          rw (e, e')
            (record {
              parsed_le = c.parsed_le;
              room = λ _. c.room e;
              budget = λ _. c.budget e;
              each = λ _. omega (arith, length-push {0}, c.each e);
            })
      | inr e' ↦ elim (Result-cases (parse_token_body (body t msg))) [
        | inl (pt, read) ↦
            rw (e, e', read, parse_token)
              (process_token-Counted (counted s t) t pt seen e (omega (arith, c.room e)) c.parsed_le
                (c.each e))
        | inr (why, failed) ↦
            rw (e, e', failed, parse_token)
              (record {
                parsed_le = c.parsed_le;
                room = λ _. c.room e;
                budget = λ _. c.budget e;
                each = λ _. omega (arith, length-push {0}, c.each e);
              })
      ]
    ]
  ]

  parse_tokens-Counted :
      (ts : List TokenSpan) (s : ParseState) (seen : ℕ)
      → Counted env.max_mentions s seen
      → Counted env.max_mentions (parse_tokens env msg s ts) (seen + length ts)
  unfolding parse_tokens
  parse_tokens-Counted [] s seen c =
      let same : seen ≡ seen + 0 = omega arith in subst (Counted env.max_mentions s) same c
  parse_tokens-Counted (t ∷ ts) s seen c =
      let regroup : seen + 1 + length ts ≡ seen + suc (length ts) = omega arith in
      subst (Counted env.max_mentions (parse_tokens env msg (parse_token env msg s t) ts)) regroup (
        parse_tokens-Counted ts (parse_token env msg s t) (seen + 1)
          (parse_token-Counted s t seen c))

  initial-Counted : Counted env.max_mentions initial_state 0
  initial-Counted = record {
    parsed_le = omega arith;
    room = λ _. omega arith;
    budget = λ _. omega arith;
    each = λ _. omega arith;
  }

  -- No more mentions than the limit.
  pub length-final_state_parsed : length (final_state env msg).parsed ≤ env.max_mentions
  unfolding final_state
  length-final_state_parsed =
      let ts = found_tokens (scan env.max_mentions msg) in
      (parse_tokens-Counted ts initial_state 0 initial-Counted).parsed_le

  -- Unless the limit was hit, each token found has become a mention or an error.
  pub final_state-each :
      (final_state env msg).limit_hit ≡ false
      → length (final_state env msg).parsed + length (final_state env msg).errs
        ≡ length (found_tokens (scan env.max_mentions msg))
  unfolding final_state
  final_state-each unlimited =
      let ts = found_tokens (scan env.max_mentions msg) in
      (parse_tokens-Counted ts initial_state 0 initial-Counted).each unlimited ∙ omega arith
