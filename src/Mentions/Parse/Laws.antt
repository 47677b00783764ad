-- ===== src/Mentions/Parse/Laws.antt =====
-- The message that `Parse` returns against the one that it was given.
pub mod Counts
pub mod Accounts
use express_send.Common.{
  ℕ, suc, ◌+◌, ◌*◌, ◌-◌, ◌≤◌, ◌<◌, Bool, true, false, not, if◌then◌else◌, leb, ltb, Option, none,
  some, List, [], ◌∷◌, ◌++◌, ◌≡◌, ◌⊎◌, inl, inr, refl, sym, ap, ◌∙◌, subst, arith, length, take,
  drop, Result, ok, err, Bool-cases, Result-cases, append_assoc, append-nil, take-append-drop,
  take_one, take-append_length, take-append-take, slice-append, get_elem?,
}
use mathlib.Core.List.{concat-ne-nil}
use express_send.Text.{Text, codes, has_prefix}
use express_send.Text.Laws.{has_prefix_sound}
use express_send.Mentions.Scan.{TokenSpan, token_prefix, slice, raw, body, scan}
use express_send.Mentions.Scan.Laws.{
  IsToken, Tokens, no_more, full, token, start-le-end, scan-Tokens,
}
use express_send.Mentions.Token.{ParsedToken, parse_token_body}
use express_send.Mentions.Parse.{
  Outside, MentionEntry, ParseState, ParseResult, normalize, merge_mentions, placeholder,
  process_token, parse_token, parse_tokens, initial_state, final_state, found_tokens, result_for,
  parse_message,
}

slice-prefix :
    (msg : Text) (i : ℕ)
    → has_prefix (drop i msg) token_prefix ≡ true
    → slice msg i (i + 9) ≡ token_prefix
slice-prefix msg i h =
    let size : i + 9 - i ≡ 9 = omega arith in
    rw size (
      rw (has_prefix_sound (drop i msg) token_prefix h)
        (take-append_length token_prefix (drop 9 (drop i msg))))

slice-last : (msg : Text) (k : ℕ) (a : ℕ) → get_elem? msg k ≡ some a → slice msg k (k + 1) ≡ a ∷ []
slice-last msg k a h = let size : k + 1 - k ≡ 1 = omega arith in rw size (take_one msg k a h)

closed_end :
    (msg : Text) (from : ℕ) (t : TokenSpan)
    → IsToken msg from t
    → t.unclosed ≡ false
    → (e : ℕ) × (t.end ≡ e + 1) × (t.start + 9 ≤ e) × (get_elem? msg e ≡ some b']')
closed_end msg from t h closed =
    (h.body_end, h.end_eq ∙ rw closed, h.body_start, rw closed at h.ends)

-- A closed token is its prefix, its body and the bracket.
raw-closed :
    (msg : Text) (from : ℕ) (t : TokenSpan)
    → IsToken msg from t
    → t.unclosed ≡ false
    → raw t msg ≡ token_prefix ++ (body t msg ++ codes "]")
unfolding raw body
raw-closed msg from t h closed =
    let (e, at, le, bracket) = closed_end msg from t h closed in
    let before : t.end - 1 ≡ e = omega arith in
    let whole = slice-append msg t.start (t.start + 9) (e + 1) (omega arith) (omega arith) in
    let inside = slice-append msg (t.start + 9) e (e + 1) le (omega arith) in
    rw before (
      rw at (
        sym whole
        ∙ ap (λ w. w ++ slice msg (t.start + 9) (e + 1)) (slice-prefix msg t.start h.prefix)
        ∙ ap (λ w. token_prefix ++ w) (sym inside)
        ∙ ap (λ w. token_prefix ++ (slice msg (t.start + 9) e ++ w))
            (slice-last msg e b']' bracket)))

take-slice : (msg : Text) (i j : ℕ) → i ≤ j → take i msg ++ slice msg i j ≡ take j msg
take-slice msg i j le =
    let size : i + (j - i) ≡ j = omega arith in rw size at (take-append-take i (j - i) msg)

module _ (env : Outside) where
  -- `out` is `s` with some of its well-formed tokens replaced by the placeholders of `entries`,
  -- in order. All else is as in `s`.
  pub data Rewrites : Text → Text → List MentionEntry → Type 0 where
    nothing : Rewrites [] [] []
    literal :
        {s out : Text} {entries : List MentionEntry} (w : Text)
        → Rewrites s out entries
        → Rewrites (s ++ w) (out ++ w) entries
    mention :
        {s out : Text} {entries : List MentionEntry} (k : ℕ) (inner : Text) {t : ParsedToken}
        {e : MentionEntry}
        → parse_token_body inner ≡ ok t
        → normalize env k t (token_prefix ++ (inner ++ codes "]")) ≡ ok e
        → Rewrites s out entries
        → Rewrites
            (s ++ (token_prefix ++ (inner ++ codes "]")))
            (out ++ placeholder e)
            (entries ++ e ∷ [])

  -- Nothing is lost or added where no token was replaced.
  pub Rewrites-nil :
      {s out : Text} {entries : List MentionEntry} → Rewrites s out entries → entries ≡ [] → out ≡ s
  Rewrites-nil nothing e = refl
  Rewrites-nil (literal w r) e = ap (λ t. t ++ w) (Rewrites-nil r e)
  Rewrites-nil (mention {entries = es} k inner {e = x} p n r) e = absurd (concat-ne-nil x es e)

  module _ (msg : Text) where
    record IsAt (s : ParseState) : Type 0 where
      rewrites : Rewrites (take s.cursor msg) s.buf s.parsed
      bound : s.cursor ≤ length msg

    copy_gap :
        (s : ParseState) (t : TokenSpan)
        → IsAt s
        → IsToken msg s.cursor t
        → Rewrites (take t.start msg) (s.buf ++ slice msg s.cursor t.start) s.parsed
    copy_gap s t h tok =
        subst (λ w. Rewrites w (s.buf ++ slice msg s.cursor t.start) s.parsed)
          (take-slice msg s.cursor t.start tok.behind) (literal _ h.rewrites)

    copy_token :
        {buf : Text} {entries : List MentionEntry} {from : ℕ} (t : TokenSpan)
        → IsToken msg from t
        → Rewrites (take t.start msg) buf entries
        → Rewrites (take t.end msg) (buf ++ raw t msg) entries
    unfolding raw
    copy_token {buf} {entries} t tok r =
        subst (λ w. Rewrites w (buf ++ slice msg t.start t.end) entries)
          (take-slice msg t.start t.end (omega (arith, start-le-end t tok))) (literal _ r)

    swap_token :
        {buf : Text} {entries : List MentionEntry} {from : ℕ} (t : TokenSpan) (k : ℕ)
        {pt : ParsedToken} {e : MentionEntry}
        → IsToken msg from t
        → t.unclosed ≡ false
        → parse_token_body (body t msg) ≡ ok pt
        → normalize env k pt (raw t msg) ≡ ok e
        → Rewrites (take t.start msg) buf entries
        → Rewrites (take t.end msg) (buf ++ placeholder e) (entries ++ e ∷ [])
    swap_token {buf} {entries} {from} t k {pt} {e} tok closed parsed normal r =
        let whole = raw-closed msg from t tok closed in
        let upto = take-slice msg t.start t.end (omega (arith, start-le-end t tok)) in
        subst (λ w. Rewrites w (buf ++ placeholder e) (entries ++ e ∷ []))
          (ap (λ w. take t.start msg ++ w) (sym whole) ∙ unfold raw in upto)
          (mention k (body t msg) parsed (rw whole at normal) r)

    process_token-IsAt :
        (s : ParseState) (t : TokenSpan) (pt : ParsedToken) (from : ℕ)
        → IsToken msg from t
        → t.unclosed ≡ false
        → parse_token_body (body t msg) ≡ ok pt
        → Rewrites (take t.start msg) s.buf s.parsed
        → IsAt (process_token env msg t pt s)
    unfolding process_token
    process_token-IsAt s t pt from tok closed parsed r =
        elim (Bool-cases (ltb env.max_mentions s.processed)) [
          | inl e ↦ rw e (record { rewrites = copy_token t tok r; bound = tok.bound })
          | inr e ↦ elim (Result-cases (normalize env s.processed pt (raw t msg))) [
            | inl (entry, done) ↦
                rw (e, done, process_token)
                  (record {
                    rewrites = swap_token t s.processed tok closed parsed done r;
                    bound = tok.bound;
                  })
            | inr (why, failed) ↦
                rw (e, failed, process_token)
                  (record { rewrites = copy_token t tok r; bound = tok.bound })
          ]
        ]

    -- The state when the token is looked at: the text before it copied, the token counted.
    abbrev counted : ParseState → TokenSpan → ParseState
    counted s t = record s {
      buf = s.buf ++ slice msg s.cursor t.start;
      processed = s.processed + 1;
    }

    parse_token-IsAt :
        (s : ParseState) (t : TokenSpan)
        → IsAt s
        → IsToken msg s.cursor t
        → IsAt (parse_token env msg s t)
    unfolding parse_token
    parse_token-IsAt s t h tok =
        let before = copy_gap s t h tok in
        elim (Bool-cases s.limit_hit) [
          | inl e ↦ rw e (record { rewrites = copy_token t tok before; bound = tok.bound })
          | inr e ↦ elim (Bool-cases t.unclosed) [
            | inl e' ↦ rw (e, e') (record { rewrites = copy_token t tok before; bound = tok.bound })
            | inr e' ↦ elim (Result-cases (parse_token_body (body t msg))) [
              | inl (pt, read) ↦
                  rw (e, e', read, parse_token)
                    (process_token-IsAt (counted s t) t pt s.cursor tok e' read before)
              | inr (why, failed) ↦
                  rw (e, e', failed, parse_token)
                    (record { rewrites = copy_token t tok before; bound = tok.bound })
            ]
          ]
        ]

    parse_token-cursor : (s : ParseState) (t : TokenSpan) → (parse_token env msg s t).cursor ≡ t.end
    unfolding parse_token process_token
    parse_token-cursor s t = ground arith

    parse_tokens-IsAt :
        {limit n from : ℕ} {ts : List TokenSpan} (s : ParseState)
        → Tokens msg limit n from ts
        → s.cursor ≡ from
        → IsAt s
        → IsAt (parse_tokens env msg s ts)
    unfolding parse_tokens
    parse_tokens-IsAt s (no_more _) at h = h
    parse_tokens-IsAt s (full _) at h = h
    parse_tokens-IsAt s (token {t} {ts} lt tok rest) at h =
        parse_tokens-IsAt (parse_token env msg s t) rest (parse_token-cursor s t)
          (parse_token-IsAt s t h (subst (λ c. IsToken msg c t) (sym at) tok))

    initial-IsAt : IsAt initial_state
    initial-IsAt = record { rewrites = nothing; bound = omega arith }

  finish_Rewrites :
      (msg : Text) (s : ParseState)
      → IsAt msg s
      → Rewrites msg (s.buf ++ drop s.cursor msg) s.parsed
  finish_Rewrites msg s h =
      subst (λ w. Rewrites w (s.buf ++ drop s.cursor msg) s.parsed) (take-append-drop s.cursor msg)
        (literal (drop s.cursor msg) h.rewrites)

  final_state-Rewrites :
      (msg : Text)
      → 0 < env.max_mentions
      → Rewrites msg (final_state env msg).buf (final_state env msg).parsed
  unfolding final_state
  final_state-Rewrites msg pos =
      let (ts, found, tokens) = scan-Tokens env.max_mentions msg pos in
      let at =
        λ (o : Option (List TokenSpan)). parse_tokens env msg initial_state (found_tokens o) in
      let start : at (some ts) ≡ at (scan env.max_mentions msg) = ap at (sym found) in
      finish_Rewrites msg (at (scan env.max_mentions msg)) (
        subst (IsAt msg) start (parse_tokens-IsAt msg initial_state tokens refl (initial-IsAt msg)))

  result_for-Rewrites :
      (msg raw_mentions : Text) (ts : List TokenSpan)
      → 0 < env.max_mentions
      → (entries : List MentionEntry) × Rewrites msg
          (result_for env msg raw_mentions ts).message
          entries
        × ((result_for env msg raw_mentions ts).mentions ≡ merge_mentions env raw_mentions entries)
  unfolding result_for
  result_for-Rewrites msg raw_mentions [] pos =
      ([], literal msg nothing, unfold merge_mentions in refl)
  result_for-Rewrites msg raw_mentions (t ∷ ts) pos =
      ((final_state env msg).parsed, final_state-Rewrites msg pos, refl)

  -- What `Parse` returns is the message with some of its well-formed tokens replaced, each by the
  -- placeholder of its mention, and nothing else changed; the mentions returned are the given
  -- ones merged with those of the replaced tokens, in their order.
  pub parse_message-Rewrites :
      (msg raw_mentions : Text) (enabled : Bool)
      → 0 < env.max_mentions
      → (entries : List MentionEntry) × Rewrites msg
          (parse_message env msg raw_mentions enabled).message
          entries
        × ((parse_message env msg raw_mentions enabled).mentions
            ≡ merge_mentions env raw_mentions entries)
  unfolding parse_message
  parse_message-Rewrites msg raw_mentions false pos =
      ([], literal msg nothing, unfold merge_mentions in refl)
  parse_message-Rewrites msg raw_mentions true pos = result_for-Rewrites msg raw_mentions _ pos
