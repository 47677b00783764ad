-- ===== src/Server/Types/Uuid.antt =====
-- The texts that `isUUID` accepts.
use express_send.Common.{
  ℕ, zero, suc, ◌≤◌, ◌==◌, ==_iff, true, some, List, [], ◌∷◌, ◌++◌, ◌≡◌, ◌↔◌, ◌⊎◌, inl, inr, refl,
  sym, ap, ◌∙◌, subst, arith, length, All, Bool-cases, Option-cases, eq_of_some, append-nil,
}
use express_send.Text.{Text}
use express_send.Text.Query.{is_hex}
use express_send.Server.Types.{hex_run, uuid_groups, is_uuid}

abbrev pub HexDigit : ℕ → Type 0
HexDigit c = ((b'0' ≤ c) × (c ≤ b'9')) ⊎ ((b'a' ≤ c) × (c ≤ b'f')) ⊎ ((b'A' ≤ c) × (c ≤ b'F'))

-- A run of hexadecimal digits of a given length.
abbrev pub Run : ℕ → Text → Type 0
Run n w = (length w ≡ n) × All HexDigit w

-- Runs of given lengths, joined by dashes.
pub data Groups : List ℕ → Text → Type 0 where
  last : {n : ℕ} {w : Text} → Run n w → Groups (n ∷ []) w
  joined :
      {n m : ℕ} {ns : List ℕ} {s : Text} (w rest : Text)
      → Run n w
      → s ≡ w ++ (b'-' ∷ rest)
      → Groups (m ∷ ns) rest
      → Groups (n ∷ m ∷ ns) s

abbrev pub IsUuid : Text → Type 0
IsUuid = Groups (8 ∷ 4 ∷ 4 ∷ 4 ∷ 12 ∷ [])

is_hex_iff : (c : ℕ) → (is_hex c ≡ true) ↔ HexDigit c
unfolding is_hex
is_hex_iff c = ground arith

hex_run_sound :
    (n : ℕ) (s rest : Text) → hex_run n s ≡ some rest → (w : Text) × Run n w × (s ≡ w ++ rest)
unfolding hex_run
hex_run_sound zero s rest h = ([], (refl, tt), eq_of_some h)
hex_run_sound (suc n) [] rest h = absurd (cc)
hex_run_sound (suc n) (c ∷ s) rest h = elim (Bool-cases (is_hex c)) [
  | inr e ↦ absurd (let bad = rw (e, hex_run) at h in cc)
  | inl e ↦
      let (w, (len, digits), same) = hex_run_sound n s rest (rw (e, hex_run) at h) in
      (c ∷ w, (ap suc len, ((is_hex_iff c).0 e, digits)), ap (◌∷◌ c) same)
]

hex_run_complete : (n : ℕ) (w rest : Text) → Run n w → hex_run n (w ++ rest) ≡ some rest
unfolding hex_run
hex_run_complete zero [] rest run = refl
hex_run_complete zero (c ∷ w) rest (len, _) = absurd (omega (arith, len))
hex_run_complete (suc n) [] rest (len, _) = absurd (omega (arith, len))
hex_run_complete (suc n) (c ∷ w) rest (len, (digit, digits)) =
    rw ((is_hex_iff c).1 digit, hex_run) (hex_run_complete n w rest (omega (arith, len), digits))

Groups-complete : (ns : List ℕ) (s : Text) → Groups ns s → uuid_groups ns s ≡ true
unfolding uuid_groups
Groups-complete [] s at_s = absurd (elim at_s [ ])
Groups-complete (n ∷ []) s (last run) =
    let whole = subst (λ t. hex_run n t ≡ some []) (append-nil s) (hex_run_complete n s [] run) in
    rw (whole, uuid_groups) refl
Groups-complete (n ∷ m ∷ ns) s (joined w rest run same more) =
    let at_w =
      subst (λ t. hex_run n t ≡ some (b'-' ∷ rest)) (sym same)
        (hex_run_complete n w (b'-' ∷ rest) run) in
    rw (at_w, uuid_groups) (Groups-complete (m ∷ ns) rest more)

Groups-sound : (ns : List ℕ) (s : Text) → uuid_groups ns s ≡ true → Groups ns s
unfolding uuid_groups
Groups-sound [] s h = absurd (cc)
Groups-sound (n ∷ []) s h = elim (Option-cases (hex_run n s)) [
  | inl e ↦ absurd (let bad = rw (e, uuid_groups) at h in cc)
  | inr ([], e) ↦
      let (w, run, same) = hex_run_sound n s [] e in
      subst (Groups (n ∷ [])) (sym (same ∙ append-nil w)) (last run)
  | inr (c ∷ more, e) ↦ absurd (let bad = rw (e, uuid_groups) at h in cc)
]
Groups-sound (n ∷ m ∷ ns) s h = elim (Option-cases (hex_run n s)) [
  | inl e ↦ absurd (let bad = rw (e, uuid_groups) at h in cc)
  | inr ([], e) ↦ absurd (let bad = rw (e, uuid_groups) at h in cc)
  | inr (c ∷ rest, e) ↦ elim (Bool-cases (c == b'-')) [
    | inr k ↦ absurd (let bad = rw (e, k, uuid_groups) at h in cc)
    | inl k ↦
        let (w, run, same) = hex_run_sound n s (c ∷ rest) e in
        joined w rest run (same ∙ ap (λ x. w ++ (x ∷ rest)) ((==_iff c b'-').0 k))
          (Groups-sound (m ∷ ns) rest (rw (e, k, uuid_groups) at h))
  ]
]

-- The test accepts runs of 8, 4, 4, 4 and 12 hexadecimal digits, joined by dashes, and nothing else.
pub is_uuid_iff : (s : Text) → (is_uuid s ≡ true) ↔ IsUuid s
unfolding is_uuid
is_uuid_iff s =
    (Groups-sound (8 ∷ 4 ∷ 4 ∷ 4 ∷ 12 ∷ []) s, Groups-complete (8 ∷ 4 ∷ 4 ∷ 4 ∷ 12 ∷ []) s)
