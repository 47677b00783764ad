-- ===== src/Mentions/Scan/Laws.antt =====
-- What the scanner finds: every token of a message, in order, and nothing else.
use mathlib.Core.Option
use express_send.Common.{
  ℕ, zero, suc, ◌+◌, ◌*◌, ◌-◌, ◌≤◌, ◌<◌, Bool, true, false, not, if◌then◌else◌, ltb, leb, ◌==◌,
  Option, none, some, List, [], ◌∷◌, ◌≡◌, ◌≢◌, ◌⊎◌, inl, inr, refl, sym, ap, ◌∙◌, subst, ==_iff,
  arith, length, drop, get_elem?, Bool-cases, Option-cases, drop-drop, get_elem?-drop, length-drop,
  leb_iff, eq_of_some, lt-length_of_get_elem?,
}
use express_send.Text.{Text, has_prefix, index}
use express_send.Text.Laws.{length-le-has_prefix, index_at_prefix, index_first, index-none}
use express_send.Mentions.Scan.{
  token_prefix, TokenSpan, index_at, Close, find_close, span_at, scan_from, scan,
}

-- A byte of the body of a token.
abbrev IsInner : Option ℕ → Type 0
IsInner none = ⊥
IsInner (some c) = (c ≢ b']') × (c ≢ b'\n')

-- Where the body of a token ends: at a bracket, or before a line break or the end of the text.
abbrev EndsAt : Bool → Option ℕ → Type 0
EndsAt true found = found ≡ some b']'
EndsAt false found = (found ≡ none) ⊎ (found ≡ some b'\n')

record Closes (s : Text) (j : ℕ) (c : Close) : Type 0 where
  from : j ≤ c.at
  within : c.at ≤ j + length s
  inner : (k : ℕ) → j + k < c.at → IsInner (get_elem? s k)
  ends : EndsAt c.closed (get_elem? s (c.at - j))

IsInner-cons :
    (c : ℕ) (s : Text) (j at : ℕ)
    → (c ≢ b']') × (c ≢ b'\n')
    → ((k : ℕ) → j + 1 + k < at → IsInner (get_elem? s k))
    → (k : ℕ) → j + k < at
    → IsInner (get_elem? (c ∷ s) k)
IsInner-cons c s j at plain h zero lt = plain
IsInner-cons c s j at plain h (suc k) lt = h k (omega arith)

ends_cons :
    (c : ℕ) (s : Text) (j at : ℕ) (closed : Bool)
    → j + 1 ≤ at
    → EndsAt closed (get_elem? s (at - (j + 1)))
    → EndsAt closed (get_elem? (c ∷ s) (at - j))
ends_cons c s j at closed le h = let next : at - j ≡ suc (at - (j + 1)) = omega arith in rw next h

find_close-Closes : (s : Text) (j : ℕ) → Closes s j (find_close s j)
unfolding find_close
find_close-Closes [] j = record {
  from = omega arith;
  within = omega arith;
  inner = λ k h. absurd (omega arith);
  ends = inl refl;
}
find_close-Closes (c ∷ s) j = elim (Bool-cases (c == b']')) [
  | inl e ↦ rw e (record {
    from = omega arith;
    within = omega arith;
    inner = λ k h. absurd (omega arith);
    ends = let z : j - j ≡ 0 = omega arith in rw z (ap some ((==_iff c b']').0 e));
  })
  | inr e ↦ elim (Bool-cases (c == b'\n')) [
    | inl e' ↦
        rw (e, e')
          (record {
            from = omega arith;
            within = omega arith;
            inner = λ k h. absurd (omega arith);
            ends = let z : j - j ≡ 0 = omega arith in rw z (inr (ap some ((==_iff c b'\n').0 e')));
          })
    | inr e' ↦
        let rest = find_close-Closes s (j + 1) in
        rw (e, e')
          (record {
            from = omega (arith, rest.from);
            within = omega (arith, rest.within);
            inner = IsInner-cons c s j _ (ground arith, ground arith) rest.inner;
            ends = ends_cons c s j _ _ rest.from rest.ends;
          })
  ]
]

-- A token that the scan records: its prefix is the first at or behind `from`, its body holds no
-- bracket and no line break, and it is closed exactly when a bracket ends the body.
pub record IsToken (msg : Text) (from : ℕ) (t : TokenSpan) : Type 0 where
  pub behind : from ≤ t.start
  pub gap : (k : ℕ) → from ≤ k → k < t.start → has_prefix (drop k msg) token_prefix ≡ false
  pub prefix : has_prefix (drop t.start msg) token_prefix ≡ true
  pub body_end : ℕ
  pub end_eq : t.end ≡ (if t.unclosed then body_end else body_end + 1)
  pub body_start : t.start + 9 ≤ body_end
  pub inner : (k : ℕ) → t.start + 9 ≤ k → k < body_end → IsInner (get_elem? msg k)
  pub ends : EndsAt (not t.unclosed) (get_elem? msg body_end)
  pub bound : t.end ≤ length msg

-- The tokens of a message from an offset on, in order and apart. Behind the last one there is no
-- prefix, unless the limit was reached.
pub data Tokens (msg : Text) (limit : ℕ) : ℕ → ℕ → List TokenSpan → Type 0 where
  no_more :
      {n from : ℕ}
      → ((k : ℕ) → from ≤ k → has_prefix (drop k msg) token_prefix ≡ false)
      → Tokens msg limit n from []
  full : {n from : ℕ} → limit ≤ n → Tokens msg limit n from []
  token :
      {n from : ℕ} {t : TokenSpan} {ts : List TokenSpan}
      → n < limit
      → IsToken msg from t
      → Tokens msg limit (n + 1) t.end ts
      → Tokens msg limit n from (t ∷ ts)

index_at_found :
    (msg : Text) (from idx : ℕ)
    → index_at msg token_prefix from ≡ some idx
    → (i : ℕ) × (index (drop from msg) token_prefix ≡ some i) × (from + i ≡ idx)
unfolding index_at
index_at_found msg from idx h = elim (Bool-cases (leb (length msg) from)) [
  | inl e ↦ absurd (let bad = rw e at h in cc)
  | inr e ↦ (Option.map-eq-some_iff _ _).0 (rw e at h)
]

no_prefix_behind :
    (msg : Text) (k : ℕ) → length msg ≤ k → has_prefix (drop k msg) token_prefix ≡ false
no_prefix_behind msg k le = elim (Bool-cases (has_prefix (drop k msg) token_prefix)) [
  | inl e ↦
      absurd (omega (arith, length-le-has_prefix (drop k msg) token_prefix e, length-drop k msg))
  | inr e ↦ e
]

index_at_missing :
    (msg : Text) (from : ℕ)
    → index_at msg token_prefix from ≡ none
    → (k : ℕ) → from ≤ k
    → has_prefix (drop k msg) token_prefix ≡ false
unfolding index_at
index_at_missing msg from h k le = elim (Bool-cases (leb (length msg) from)) [
  | inl e ↦ no_prefix_behind msg k (omega (arith, (leb_iff (length msg) from).0 e))
  | inr e ↦ elim (Option-cases (index (drop from msg) token_prefix)) [
    | inl missing ↦
        let shift : from + (k - from) ≡ k = omega arith in
        rw shift at (
          rw (drop-drop (k - from) from msg) at (index-none (drop from msg) _ _ (k - from) missing))
    | inr (i, found) ↦ absurd (let bad = rw (e, found) at h in cc)
  ]
]

-- The prefix at `idx` is there, and is the first one behind `from`.
record IsFirst (msg : Text) (from idx : ℕ) : Type 0 where
  behind : from ≤ idx
  gap : (k : ℕ) → from ≤ k → k < idx → has_prefix (drop k msg) token_prefix ≡ false
  prefix : has_prefix (drop idx msg) token_prefix ≡ true
  room : idx + 9 ≤ length msg

room_of_prefix :
    (msg : Text) (idx : ℕ) → has_prefix (drop idx msg) token_prefix ≡ true → idx + 9 ≤ length msg
room_of_prefix msg idx h =
    omega (arith, length-le-has_prefix (drop idx msg) token_prefix h, length-drop idx msg)

index_at-IsFirst :
    (msg : Text) (from idx : ℕ) → index_at msg token_prefix from ≡ some idx → IsFirst msg from idx
index_at-IsFirst msg from idx h =
    let (i, found, e) = index_at_found msg from idx h in
    let there : has_prefix (drop idx msg) token_prefix ≡ true =
      rw (← e)
        (rw (← drop-drop i from msg) (index_at_prefix (drop from msg) token_prefix i found)) in
    record {
      behind = omega arith;
      gap = λ k le lt.
          let shift : from + (k - from) ≡ k = omega arith in
          rw shift at (
            rw (drop-drop (k - from) from msg) at
              (index_first (drop from msg) token_prefix i (k - from) found (omega arith)));
      prefix = there;
      room = room_of_prefix msg idx there;
    }

ends_not-not : (b : Bool) (found : Option ℕ) → EndsAt b found → EndsAt (not (not b)) found
ends_not-not true found h = h
ends_not-not false found h = h

ends_in_msg :
    (msg : Text) (idx : ℕ) (c : Close)
    → Closes (drop (idx + 9) msg) (idx + 9) c
    → EndsAt c.closed (get_elem? msg c.at)
ends_in_msg msg idx c h =
    let le = h.from in
    let shift : idx + 9 + (c.at - (idx + 9)) ≡ c.at = omega arith in
    subst (λ k. EndsAt c.closed (get_elem? msg k)) shift
      (rw (get_elem?-drop (c.at - (idx + 9)) (idx + 9) msg) at h.ends)

ends_closed : (b : Bool) (found : Option ℕ) → b ≡ true → EndsAt b found → found ≡ some b']'
ends_closed true found e h = h
ends_closed false found e h = cc

bound_of_ends :
    (msg : Text) (idx : ℕ) (c : Close)
    → idx + 9 ≤ length msg
    → Closes (drop (idx + 9) msg) (idx + 9) c
    → EndsAt c.closed (get_elem? msg c.at)
    → (if c.closed then c.at + 1 else c.at) ≤ length msg
bound_of_ends msg idx c room h ends = elim (Bool-cases c.closed) [
  | inl e ↦
      rw e (omega (arith, lt-length_of_get_elem? msg c.at b']' (ends_closed c.closed _ e ends)))
  | inr e ↦ rw e (omega (arith, h.within, length-drop (idx + 9) msg))
]

span_of-IsToken :
    (msg : Text) (from idx : ℕ) (c : Close)
    → IsFirst msg from idx
    → Closes (drop (idx + 9) msg) (idx + 9) c
    → IsToken msg from
        (record { start = idx; end = if c.closed then c.at + 1 else c.at; unclosed = not c.closed })
span_of-IsToken msg from idx c f h = record {
  behind = f.behind;
  gap = f.gap;
  prefix = f.prefix;
  body_end = c.at;
  end_eq = ground arith;
  body_start = h.from;
  inner = λ k le lt.
      let shift : idx + 9 + (k - (idx + 9)) ≡ k = omega arith in
      rw shift at (
        rw (get_elem?-drop (k - (idx + 9)) (idx + 9) msg) at
          (h.inner (k - (idx + 9)) (omega arith)));
  ends = ends_not-not c.closed _ (ends_in_msg msg idx c h);
  bound = bound_of_ends msg idx c f.room h (ends_in_msg msg idx c h);
}

span_at-IsToken :
    (msg : Text) (from idx : ℕ)
    → index_at msg token_prefix from ≡ some idx
    → IsToken msg from (span_at msg idx)
unfolding span_at
span_at-IsToken msg from idx h =
    span_of-IsToken msg from idx _ (index_at-IsFirst msg from idx h)
      (find_close-Closes (drop (idx + 9) msg) (idx + 9))

pub start-le-end :
    {msg : Text} {from : ℕ} (t : TokenSpan) → IsToken msg from t → t.start + 9 ≤ t.end
start-le-end t h = elim (Bool-cases t.unclosed) [
  | inl e ↦ let at : t.end ≡ h.body_end = h.end_eq ∙ rw e in omega (arith, h.body_start, at)
  | inr e ↦ let at : t.end ≡ h.body_end + 1 = h.end_eq ∙ rw e in omega (arith, h.body_start, at)
]

behind_end :
    (msg : Text) (i k : ℕ)
    → ltb i (length msg) ≡ false
    → i ≤ k
    → has_prefix (drop k msg) token_prefix ≡ false
behind_end msg i k h le =
    let outside : length msg ≤ i = ground arith in no_prefix_behind msg k (omega arith)

scan_outside :
    (fuel : ℕ) (msg : Text) (limit n i : ℕ)
    → ltb i (length msg) ≡ false
    → scan_from (suc fuel) msg limit n i ≡ some []
unfolding scan_from
scan_outside fuel msg limit n i outside = rw (outside, scan_from)

scan_missing :
    (fuel : ℕ) (msg : Text) (limit n i : ℕ)
    → ltb i (length msg) ≡ true
    → index_at msg token_prefix i ≡ none
    → scan_from (suc fuel) msg limit n i ≡ some []
unfolding scan_from
scan_missing fuel msg limit n i inside missing = rw (inside, missing, scan_from)

-- One round that finds a prefix at `idx`.
scan_round :
    (fuel : ℕ) (msg : Text) (limit n i idx : ℕ)
    → ltb i (length msg) ≡ true
    → index_at msg token_prefix i ≡ some idx
    → scan_from (suc fuel) msg limit n i ≡ (
        if leb limit (n + 1)
        then some (span_at msg idx ∷ [])
        else Option.map
            (λ ss. span_at msg idx ∷ ss)
            (scan_from fuel msg limit (n + 1) (span_at msg idx).end))
unfolding scan_from
scan_round fuel msg limit n i idx inside found = rw (inside, found, scan_from)

scan_from-Tokens :
    (fuel : ℕ) (msg : Text) (limit n i : ℕ) (spans : List TokenSpan)
    → n < limit
    → scan_from fuel msg limit n i ≡ some spans
    → Tokens msg limit n i spans
scan_from-Tokens zero msg limit n i spans lt h = unfold scan_from in absurd (cc)
scan_from-Tokens (suc fuel) msg limit n i spans lt h = elim (Bool-cases (ltb i (length msg))) [
  | inr outside ↦
      let empty : [] ≡ spans = eq_of_some (sym (scan_outside fuel msg limit n i outside) ∙ h) in
      subst (Tokens msg limit n i) empty (no_more (λ k le. behind_end msg i k outside le))
  | inl inside ↦ elim (Option-cases (index_at msg token_prefix i)) [
    | inl missing ↦
        let empty : [] ≡ spans =
          eq_of_some (sym (scan_missing fuel msg limit n i inside missing) ∙ h) in
        subst (Tokens msg limit n i) empty (no_more (index_at_missing msg i missing))
    | inr (idx, found) ↦
        let this = span_at-IsToken msg i idx found in
        let round = sym (scan_round fuel msg limit n i idx inside found) ∙ h in
        elim (Bool-cases (leb limit (n + 1))) [
          | inl last ↦
              let whole : span_at msg idx ∷ [] ≡ spans = eq_of_some (rw last at round) in
              subst (Tokens msg limit n i) whole
                (token lt this (full ((leb_iff limit (n + 1)).0 last)))
          | inr more ↦
              let (rest, found_rest, whole) = (Option.map-eq-some_iff _ _).0 (rw more at round) in
              subst (Tokens msg limit n i) whole (
                token lt this (
                  scan_from-Tokens fuel msg limit (n + 1) (span_at msg idx).end rest (ground arith)
                    found_rest))
        ]
  ]
]

-- Every round moves past a prefix, so the length of the text is enough fuel.
scan_from_total :
    (fuel : ℕ) (msg : Text) (limit n i : ℕ)
    → i ≤ length msg
    → length msg < fuel + i
    → (spans : List TokenSpan) × (scan_from fuel msg limit n i ≡ some spans)
scan_from_total zero msg limit n i le lt = absurd (omega arith)
scan_from_total (suc fuel) msg limit n i le lt = elim (Bool-cases (ltb i (length msg))) [
  | inr outside ↦ ([], scan_outside fuel msg limit n i outside)
  | inl inside ↦ elim (Option-cases (index_at msg token_prefix i)) [
    | inl missing ↦ ([], scan_missing fuel msg limit n i inside missing)
    | inr (idx, found) ↦
        let this = span_at-IsToken msg i idx found in
        let (rest, e) =
          scan_from_total fuel msg limit (n + 1) (span_at msg idx).end this.bound
            (omega (arith, start-le-end _ this, this.behind)) in
        elim (Bool-cases (leb limit (n + 1))) [
          | inl last ↦
              (span_at msg idx ∷ [], scan_round fuel msg limit n i idx inside found ∙ rw last)
          | inr more ↦ (
            span_at msg idx ∷ rest,
            scan_round fuel msg limit n i idx inside found ∙ rw (more, e),
          )
        ]
  ]
]

-- The scan of any message ends, and finds its tokens: all of them in order, up to the limit.
pub scan-Tokens :
    (max_mentions : ℕ) (msg : Text)
    → 0 < max_mentions
    → (spans : List TokenSpan) × (scan max_mentions msg ≡ some spans)
      × Tokens msg (2 * max_mentions) 0 0 spans
unfolding scan
scan-Tokens max_mentions msg pos =
    let (spans, e) =
      scan_from_total (suc (length msg)) msg (2 * max_mentions) 0 0 (omega arith) (omega arith) in
    (spans, e, scan_from-Tokens (suc (length msg)) msg (2 * max_mentions) 0 0 spans (omega arith) e)

-- No more tokens than the limit.
pub length-Tokens :
    {msg : Text} {limit n from : ℕ} {ts : List TokenSpan}
    → Tokens msg limit n from ts
    → n ≤ limit
    → n + length ts ≤ limit
length-Tokens (no_more h) le = omega arith
length-Tokens (full h) le = omega arith
length-Tokens (token lt t ts) le = omega (arith, length-Tokens ts (omega arith))
