-- ===== src/Command/Alias/Laws.antt =====
-- The alias that is found.
use express_send.Common.{
  ◌≡◌, ◌≢◌, refl, sym, ap, ◌∙◌, subst, ◌≤◌, ◌<◌, ◌+◌, inl, inr, Bool-cases, Option-cases,
  eq_of_some, ltb, true, false, if◌then◌else◌, none, some, ℕ, zero, suc, List, [], ◌∷◌, ◌++◌,
  length, arith,
}
use express_send.Text.{Text, eqb, contains}
use express_send.Text.Laws.{eqb_iff, eqb_of_neq}
use express_send.Command.Alias.{base_alias, candidate, find_alias, generate_chat_alias}

-- A list without the first occurrence of a string.
unfoldable remove : Text → List Text → List Text
remove x [] = []
remove x (y ∷ ys) = let rest = remove x ys in if eqb y x then ys else y ∷ rest

length-remove :
    (x : Text) (ys : List Text) → contains x ys ≡ true → length ys ≡ suc (length (remove x ys))
unfolding remove contains
length-remove x [] h = absurd (cc)
length-remove x (y ∷ ys) h = elim (Bool-cases (eqb y x)) [
  | inl e ↦ rw (e, remove) refl
  | inr e ↦ rw (e, remove) (ap suc (length-remove x ys (rw (e, contains) at h)))
]

contains-remove :
    (x z : Text) (ys : List Text) → x ≢ z → contains z ys ≡ true → contains z (remove x ys) ≡ true
unfolding remove contains
contains-remove x z [] ne h = h
contains-remove x z (y ∷ ys) ne h = elim (Bool-cases (eqb y x)) [
  | inl e ↦
      let other = eqb_of_neq y z (λ same. ne (sym ((eqb_iff y x).0 e) ∙ same)) in
      rw (e, remove) (rw (other, contains) at h)
  | inr e ↦ elim (Bool-cases (eqb y z)) [
    | inl k ↦ rw (e, remove) (rw (k, contains) refl)
    | inr k ↦ rw (e, remove) (rw (k, contains) (contains-remove x z ys ne (rw (k, contains) at h)))
  ]
]

append-injective : (s : Text) {t u : Text} → s ++ t ≡ s ++ u → t ≡ u
append-injective [] h = h
append-injective (c ∷ s) h = append-injective s (let tails = h in cc)

module _ (decimal : ℕ → Text) (injective : (i j : ℕ) → decimal i ≡ decimal j → i ≡ j)
    (base : Text) where
  candidate-injective : (i j : ℕ) → candidate decimal base i ≡ candidate decimal base j → i ≡ j
  candidate-injective i j h = injective i j (let tails = append-injective base h in cc)

  -- Candidates that are all taken are not more than the aliases.
  pigeonhole :
      (n i : ℕ) (taken : List Text)
      → ((k : ℕ) → i ≤ k → k < i + n → contains (candidate decimal base k) taken ≡ true)
      → n ≤ length taken
  pigeonhole zero i taken all = omega arith
  pigeonhole (suc n) i taken all =
      let here = all i (omega arith) (omega arith) in
      let first = candidate decimal base i in
      let rest = pigeonhole n (suc i) (remove first taken) (λ k low high.
        contains-remove first (candidate decimal base k) taken
          (λ same. absurd (let eq = candidate-injective i k same in omega (arith, eq, low)))
          (all k (omega (arith, low)) (omega (arith, high)))) in
      omega (arith, rest, length-remove first taken here)

  -- A search that finds nothing met taken candidates only.
  find_alias-none :
      (fuel i : ℕ) (taken : List Text)
      → find_alias decimal fuel base i taken ≡ none
      → (k : ℕ) → i ≤ k
      → k < i + fuel
      → contains (candidate decimal base k) taken ≡ true
  unfolding find_alias
  find_alias-none zero i taken h k low high = absurd (omega (arith, low, high))
  find_alias-none (suc fuel) i taken h k low high =
      elim (Bool-cases (contains (candidate decimal base i) taken)) [
        | inr e ↦ absurd (let bad = rw (e, find_alias) at h in cc)
        | inl e ↦ elim (Bool-cases (ltb i k)) [
          | inl later ↦
              find_alias-none fuel (suc i) taken (rw (e, find_alias) at h) k (ground arith)
                (omega (arith, high))
          | inr first ↦
              let same : i ≡ k = ground arith in
              subst (λ x. contains (candidate decimal base x) taken ≡ true) same e
        ]
      ]

  find_alias-some :
      (fuel i : ℕ) (taken : List Text) (a : Text)
      → find_alias decimal fuel base i taken ≡ some a
      → contains a taken ≡ false
  unfolding find_alias
  find_alias-some zero i taken a h = absurd (cc)
  find_alias-some (suc fuel) i taken a h =
      elim (Bool-cases (contains (candidate decimal base i) taken)) [
        | inl e ↦ find_alias-some fuel (suc i) taken a (rw (e, find_alias) at h)
        | inr e ↦ subst (λ x. contains x taken ≡ false) (eq_of_some (rw (e, find_alias) at h)) e
      ]

-- Where decimal numbers differ as their values do, an alias is found for every chat, after at most
-- one round more than there are aliases, and it is not yet taken.
pub generate_chat_alias-fresh :
    (plain : Text → Text) (decimal : ℕ → Text)
    → ((i j : ℕ) → decimal i ≡ decimal j → i ≡ j)
    → (name uuid prefix : Text) (taken : List Text)
    → (a : Text) × (generate_chat_alias plain decimal name uuid prefix taken ≡ some a)
      × (contains a taken ≡ false)
generate_chat_alias-fresh plain decimal injective name uuid prefix taken =
    let base = base_alias plain name uuid prefix in
    elim (Bool-cases (contains base taken)) [
      | inr e ↦ (base, unfold generate_chat_alias in rw (e, generate_chat_alias) refl, e)
      | inl e ↦ elim (Option-cases (find_alias decimal (suc (length taken)) base 2 taken)) [
        | inl none_ ↦
            let many =
              pigeonhole decimal injective base (suc (length taken)) 2 taken
                (find_alias-none decimal injective base (suc (length taken)) 2 taken none_) in
            absurd (omega (arith, many))
        | inr (a, found) ↦ (
          a,
          unfold generate_chat_alias in rw (e, generate_chat_alias) found,
          find_alias-some decimal injective base (suc (length taken)) 2 taken a found,
        )
      ]
    ]
