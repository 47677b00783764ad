-- ===== src/Mentions/Parse/Laws/Accounts.antt =====
-- What becomes of each token that `Parse` finds.
use express_send.Common.{
  ℕ, ◌+◌, ◌≤◌, ◌<◌, true, false, ltb, List, [], ◌∷◌, ◌++◌, ◌≡◌, ◌⊎◌, refl, sym, ap, ◌∙◌, subst,
  arith, append-nil, append_assoc, Bool-cases, Result-cases, ok, err, inl, inr,
}
use express_send.Text.{Text}
use express_send.Mentions.Scan.{TokenSpan, raw, body, slice, scan}
use express_send.Mentions.Token.{ParsedToken, BodyError, parse_token_body}
use express_send.Mentions.Parse.{
  Outside, MentionEntry, ParseError, ParseState, normalize, parse_error, limit_error,
  unclosed_token, bad_body, process_token, parse_token, parse_tokens, initial_state, final_state,
  found_tokens, keep, add_error,
}

-- The mentions and the errors of tokens, in order, where `counted` well-formed ones came before. An
-- unclosed or malformed token gives an error with its text and is not counted. Each well-formed token
-- is counted, and gives the mention or the error that it is normalized to while the limit is not
-- reached; the first one beyond the limit gives one error, and nothing that follows gives any.
pub data Accounts (env : Outside) (msg : Text)
    : ℕ → List TokenSpan → List MentionEntry → List ParseError → Type 0 where
  done : {counted : ℕ} → Accounts env msg counted [] [] []
  unclosed :
      {counted : ℕ} {tok : TokenSpan} {toks : List TokenSpan} {entries : List MentionEntry}
      {errs : List ParseError}
      → tok.unclosed ≡ true
      → Accounts env msg counted toks entries errs
      → Accounts env msg counted
          (tok ∷ toks)
          entries
          (parse_error (raw tok msg) unclosed_token ∷ errs)
  malformed :
      {counted : ℕ} {tok : TokenSpan} {toks : List TokenSpan} {entries : List MentionEntry}
      {errs : List ParseError} {why : BodyError}
      → tok.unclosed ≡ false
      → parse_token_body (body tok msg) ≡ err why
      → Accounts env msg counted toks entries errs
      → Accounts env msg counted
          (tok ∷ toks)
          entries
          (parse_error (raw tok msg) (bad_body why) ∷ errs)
  beyond :
      {counted : ℕ} {tok : TokenSpan} {toks : List TokenSpan} (pt : ParsedToken)
      → tok.unclosed ≡ false
      → parse_token_body (body tok msg) ≡ ok pt
      → env.max_mentions ≤ counted
      → Accounts env msg counted (tok ∷ toks) [] (limit_error env.max_mentions ∷ [])
  failed :
      {counted : ℕ} {tok : TokenSpan} {toks : List TokenSpan} {entries : List MentionEntry}
      {errs : List ParseError} {e : ParseError} (pt : ParsedToken)
      → tok.unclosed ≡ false
      → parse_token_body (body tok msg) ≡ ok pt
      → counted < env.max_mentions
      → normalize env (counted + 1) pt (raw tok msg) ≡ err e
      → Accounts env msg (counted + 1) toks entries errs
      → Accounts env msg counted (tok ∷ toks) entries (e ∷ errs)
  mention :
      {counted : ℕ} {tok : TokenSpan} {toks : List TokenSpan} {entries : List MentionEntry}
      {errs : List ParseError} {entry : MentionEntry} (pt : ParsedToken)
      → tok.unclosed ≡ false
      → parse_token_body (body tok msg) ≡ ok pt
      → counted < env.max_mentions
      → normalize env (counted + 1) pt (raw tok msg) ≡ ok entry
      → Accounts env msg (counted + 1) toks entries errs
      → Accounts env msg counted (tok ∷ toks) (entry ∷ entries) errs

module _ (env : Outside) (msg : Text) where
  -- What a round adds, and how it extends the account of the tokens after it.
  record StepTo (s : ParseState) (tok : TokenSpan) (s' : ParseState) : Type 0 where
    entries : List MentionEntry
    errs : List ParseError
    parsed_same : s'.parsed ≡ s.parsed ++ entries
    errs_same : s'.errs ≡ s.errs ++ errs
    extends :
        ((s'.limit_hit ≡ false)
          × ((toks : List TokenSpan) (ms : List MentionEntry) (es : List ParseError)
              → Accounts env msg s'.processed toks ms es
              → Accounts env msg s.processed (tok ∷ toks) (entries ++ ms) (errs ++ es)))
        ⊎ ((s'.limit_hit ≡ true)
            × ((toks : List TokenSpan) → Accounts env msg s.processed (tok ∷ toks) entries errs))

  -- The state when a well-formed token is looked at.
  abbrev counting : ParseState → TokenSpan → ParseState
  counting s t = record s { buf = s.buf ++ slice msg s.cursor t.start; processed = s.processed + 1 }

  process_token-StepTo :
      (s : ParseState) (tok : TokenSpan) (pt : ParsedToken)
      → s.limit_hit ≡ false
      → tok.unclosed ≡ false
      → parse_token_body (body tok msg) ≡ ok pt
      → StepTo s tok (process_token env msg tok pt (counting s tok))
  unfolding process_token
  process_token-StepTo s tok pt under closed read =
      elim (Bool-cases (ltb env.max_mentions (s.processed + 1))) [
        | inl e ↦
            rw (e, process_token)
              (record {
                entries = [];
                errs = limit_error env.max_mentions ∷ [];
                parsed_same = sym (append-nil s.parsed);
                errs_same = refl;
                extends = inr (refl, λ toks. beyond pt closed read (ground (arith, e)));
              })
        | inr e ↦
            let within : s.processed < env.max_mentions = ground (arith, e) in
            elim (Result-cases (normalize env (s.processed + 1) pt (raw tok msg))) [
              | inl (entry, n) ↦
                  rw (e, n, process_token)
                    (record {
                      entries = entry ∷ [];
                      errs = [];
                      parsed_same = refl;
                      errs_same = sym (append-nil s.errs);
                      extends =
                          inl (under, λ toks ms es rest. mention pt closed read within n rest);
                    })
              | inr (why, n) ↦
                  rw (e, n, process_token)
                    (record {
                      entries = [];
                      errs = why ∷ [];
                      parsed_same = sym (append-nil s.parsed);
                      errs_same = refl;
                      extends = inl (under, λ toks ms es rest. failed pt closed read within n rest);
                    })
            ]
      ]

  -- A token that stays as it is, with an error.
  abbrev erring : ParseState → TokenSpan → ParseError → ParseState
  erring s tok e =
      keep msg tok (add_error e (record s { buf = s.buf ++ slice msg s.cursor tok.start }))

  erring-StepTo :
      (s : ParseState) (tok : TokenSpan) (e : ParseError)
      → s.limit_hit ≡ false
      → ((toks : List TokenSpan) (ms : List MentionEntry) (es : List ParseError)
          → Accounts env msg s.processed toks ms es
          → Accounts env msg s.processed (tok ∷ toks) ms (e ∷ es))
      → StepTo s tok (erring s tok e)
  erring-StepTo s tok e under extend = record {
    entries = [];
    errs = e ∷ [];
    parsed_same = sym (append-nil s.parsed);
    errs_same = refl;
    extends = inl (under, extend);
  }

  parse_token-StepTo :
      (s : ParseState) (tok : TokenSpan)
      → s.limit_hit ≡ false
      → StepTo s tok (parse_token env msg s tok)
  unfolding parse_token
  parse_token-StepTo s tok under = elim (Bool-cases tok.unclosed) [
    | inl e ↦
        let why = parse_error (raw tok msg) unclosed_token in
        let same : parse_token env msg s tok ≡ erring s tok why = rw (under, e, parse_token) refl in
        subst (StepTo s tok) (sym same)
          (erring-StepTo s tok why under (λ toks ms es rest. unclosed e rest))
    | inr e ↦ elim (Result-cases (parse_token_body (body tok msg))) [
      | inl (pt, read) ↦
          let same : parse_token env msg s tok ≡ process_token env msg tok pt (counting s tok) =
            rw (under, e, read, parse_token) refl in
          subst (StepTo s tok) (sym same) (process_token-StepTo s tok pt under e read)
      | inr (bad, read) ↦
          let why = parse_error (raw tok msg) (bad_body bad) in
          let same : parse_token env msg s tok ≡ erring s tok why =
            rw (under, e, read, parse_token)
              (ap (λ b. record (erring s tok why) { limit_hit = b }) under) in
          subst (StepTo s tok) (sym same)
            (erring-StepTo s tok why under (λ toks ms es rest. malformed e read rest))
    ]
  ]

  -- Behind the limit nothing is added.
  parse_tokens_limited :
      (s : ParseState) (toks : List TokenSpan)
      → s.limit_hit ≡ true
      → ((parse_tokens env msg s toks).parsed ≡ s.parsed)
        × ((parse_tokens env msg s toks).errs ≡ s.errs)
  unfolding parse_tokens parse_token
  parse_tokens_limited s [] hit = (refl, refl)
  parse_tokens_limited s (tok ∷ toks) hit =
      let s' : ParseState = parse_token env msg s tok in
      let same_hit : s'.limit_hit ≡ true = rw (hit, parse_token) refl in
      let same_parsed : s'.parsed ≡ s.parsed = rw (hit, parse_token) refl in
      let same_errs : s'.errs ≡ s.errs = rw (hit, parse_token) refl in
      let (parsed, errs) = parse_tokens_limited s' toks same_hit in
      (parsed ∙ same_parsed, errs ∙ same_errs)

  -- What the rounds add to the mentions and the errors accounts for the tokens.
  parse_tokens-Accounts :
      (s : ParseState) (toks : List TokenSpan)
      → s.limit_hit ≡ false
      → (ms : List MentionEntry) × (es : List ParseError) × Accounts env msg s.processed toks ms es
        × ((parse_tokens env msg s toks).parsed ≡ s.parsed ++ ms)
        × ((parse_tokens env msg s toks).errs ≡ s.errs ++ es)
  unfolding parse_tokens
  parse_tokens-Accounts s [] under =
      ([], [], done, sym (append-nil s.parsed), sym (append-nil s.errs))
  parse_tokens-Accounts s (tok ∷ toks) under =
      let s' = parse_token env msg s tok in
      let step = parse_token-StepTo s tok under in
      elim step.extends [
        | inr (hit, all) ↦
            let (parsed, errs) = parse_tokens_limited s' toks hit in
            (step.entries, step.errs, all toks, parsed ∙ step.parsed_same, errs ∙ step.errs_same)
        | inl (still, extend) ↦
            let (ms, es, rest, parsed, errs) = parse_tokens-Accounts s' toks still in
            (
              step.entries ++ ms,
              step.errs ++ es,
              extend toks ms es rest,
              parsed ∙ ap (λ xs. xs ++ ms) step.parsed_same ∙ append_assoc s.parsed step.entries ms,
              errs ∙ ap (λ xs. xs ++ es) step.errs_same ∙ append_assoc s.errs step.errs es,
            )
      ]

  -- The mentions and the errors of a message account for the tokens found in it, each in order: up to
  -- the limit every well-formed token gives its own mention or error, and every other one its error.
  pub final_state-Accounts :
      Accounts env msg 0
        (found_tokens (scan env.max_mentions msg))
        (final_state env msg).parsed
        (final_state env msg).errs
  unfolding final_state
  final_state-Accounts =
      let toks = found_tokens (scan env.max_mentions msg) in
      let (ms, es, all, parsed, errs) = parse_tokens-Accounts initial_state toks refl in
      subst (λ ms. Accounts env msg 0 toks ms (parse_tokens env msg initial_state toks).errs)
        (sym parsed) (subst (Accounts env msg 0 toks ms) (sym errs) all)
