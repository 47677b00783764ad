-- ===== src/Text/Laws.antt =====
-- Each test and search of `strings` against the concatenation that it stands for.
use Prim.Native.Nat.add
use mathlib.Core.Option
use express_send.Common.{
  none, zero, ◌<◌, ◌≤◌, ℕ, suc, ◌+◌, true, false, some, [], ◌∷◌, ◌++◌, ◌≡◌, ◌≢◌, refl, sym, ap, ◌∙◌,
  ◌↔◌, inl, inr, length, drop, Bool-cases, Option-cases, arith, append_assoc, length-append,
  drop-append_of_le, drop-append_length,
}
use express_send.Text.{Text, eqb, cut_prefix, has_prefix, has_suffix, index, split, push_first}

pub eqb_iff : (s t : Text) → (eqb s t ≡ true) ↔ (s ≡ t)
unfolding eqb
eqb_iff [] [] = (λ _. refl, λ _. refl)
eqb_iff [] (b ∷ t) = ground arith
eqb_iff (a ∷ s) [] = ground arith
eqb_iff (a ∷ s) (b ∷ t) = ground (arith, eqb_iff s t)

pub eqb_refl : (s : Text) → eqb s s ≡ true
eqb_refl s = (eqb_iff s s).1 refl

pub neq_of_eqb : (s t : Text) → eqb s t ≡ false → s ≢ t
neq_of_eqb s t h e = absurd (let k = (eqb_iff s t).1 e in cc)

pub eqb_of_neq : (s t : Text) → s ≢ t → eqb s t ≡ false
eqb_of_neq s t h = elim (Bool-cases (eqb s t)) [
  | inl e ↦ absurd (h ((eqb_iff s t).0 e))
  | inr e ↦ e
]

pub cut_prefix_sound : (s p r : Text) → cut_prefix s p ≡ some r → s ≡ p ++ r
unfolding cut_prefix
cut_prefix_sound s [] r h = cc
cut_prefix_sound [] (_ ∷ _) r h = cc
cut_prefix_sound (c ∷ s) (d ∷ p) r h = ground (arith, cut_prefix_sound s p r)

pub cut_prefix-append : (p r : Text) → cut_prefix (p ++ r) p ≡ some r
unfolding cut_prefix
cut_prefix-append [] r = refl
cut_prefix-append (c ∷ p) r = ground (arith, cut_prefix-append p r)

pub has_prefix_sound : (s p : Text) → has_prefix s p ≡ true → s ≡ p ++ drop (length p) s
unfolding has_prefix
has_prefix_sound s p h = elim (Option-cases (cut_prefix s p)) [
  | inl e ↦ absurd (cc)
  | inr (r, e) ↦
      let whole = cut_prefix_sound s p r e in
      whole ∙ ap (λ t. p ++ t) (sym (ap (drop (length p)) whole ∙ drop-append_length p r))
]

pub has_prefix-append : (p r : Text) → has_prefix (p ++ r) p ≡ true
unfolding has_prefix
has_prefix-append p r = rw (cut_prefix-append p r)

pub has_suffix_sound : (s p : Text) → has_suffix s p ≡ true → (w : Text) × (s ≡ w ++ p)
unfolding has_suffix
has_suffix_sound [] p h = ([], (eqb_iff [] p).0 h)
has_suffix_sound (c ∷ s) p h = elim (Bool-cases (eqb (c ∷ s) p)) [
  | inl e ↦ ([], (eqb_iff (c ∷ s) p).0 e)
  | inr e ↦ let (w, q) = has_suffix_sound s p (ground arith) in (c ∷ w, ap (◌∷◌ c) q)
]

has_suffix_self : (p : Text) → has_suffix p p ≡ true
unfolding has_suffix
has_suffix_self [] = refl
has_suffix_self (c ∷ p) = rw (eqb_refl (c ∷ p))

pub has_suffix-append : (w p : Text) → has_suffix (w ++ p) p ≡ true
unfolding has_suffix
has_suffix-append [] p = has_suffix_self p
has_suffix-append (c ∷ w) p = ground (arith, has_suffix-append w p)

-- What `index` finds is an occurrence.
pub index_sound :
    (s sub : Text) (i : ℕ)
    → index s sub ≡ some i
    → (w : Text) × (s ≡ w ++ (sub ++ drop (i + length sub) s)) × (length w ≡ i)
unfolding index
index_sound [] sub i h = elim (Bool-cases (has_prefix [] sub)) [
  | inl e ↦
      let z : i ≡ 0 = ground arith in ([], rw z (rw add.zero (has_prefix_sound [] sub e)), rw z)
  | inr e ↦ absurd (cc)
]
index_sound (c ∷ s) sub i h = elim (Bool-cases (has_prefix (c ∷ s) sub)) [
  | inl e ↦
      let z : i ≡ 0 = ground arith in
      ([], rw z (rw add.zero (has_prefix_sound (c ∷ s) sub e)), rw z)
  | inr e ↦
      let (j, found, next) = (Option.map-eq-some_iff _ _).0 (rw e at h) in
      let (w, whole, size) = index_sound s sub j found in
      (c ∷ w, rw (← next) (rw add.suc (ap (◌∷◌ c) whole)), rw (← next) (ap suc size))
]

index_of_prefix : (s sub : Text) → has_prefix s sub ≡ true → index s sub ≡ some 0
unfolding index
index_of_prefix [] sub h = rw h
index_of_prefix (c ∷ s) sub h = rw h

index_skip :
    (c : ℕ) (s sub : Text) (i : ℕ)
    → has_prefix (c ∷ s) sub ≡ false
    → index s sub ≡ some i
    → index (c ∷ s) sub ≡ some (suc i)
unfolding index
index_skip c s sub i h found = rw (h, found)

-- An occurrence is found, at its place or before it.
pub index_complete :
    (w sub r : Text)
    → (i : ℕ) × (u : Text) × (index (w ++ (sub ++ r)) sub ≡ some i)
      × (drop (i + length sub) (w ++ (sub ++ r)) ≡ u ++ r)
index_complete [] sub r = (
  0,
  [],
  index_of_prefix (sub ++ r) sub (has_prefix-append sub r),
  rw add.zero (drop-append_length sub r),
)
index_complete (c ∷ w) sub r = elim (Bool-cases (has_prefix (c ∷ (w ++ (sub ++ r))) sub)) [
  | inl e ↦ (
    0,
    drop (length sub) ((c ∷ w) ++ sub),
    index_of_prefix _ sub e,
    rw add.zero (
        rw (← append_assoc (c ∷ w) sub r) (
          drop-append_of_le (length sub) ((c ∷ w) ++ sub) r
            (omega (arith, length-append (c ∷ w) sub)))),
  )
  | inr e ↦
      let (i, u, found, after) = index_complete w sub r in
      (suc i, u, index_skip c _ sub i e found, rw add.suc after)
]

-- The laws of `split`: a separator opens a new part, any other byte belongs to the part it is in.
pub split_at_sep : (sep : ℕ) (s : Text) → split (sep ∷ s) sep ≡ [] ∷ split s sep
unfolding split
split_at_sep sep s = ground arith

pub split_push : (sep c : ℕ) (s : Text) → c ≢ sep → split (c ∷ s) sep ≡ push_first c (split s sep)
unfolding split
split_push sep c s h = ground arith

-- What `index` finds is the first occurrence.
pub index_at_prefix :
    (s sub : Text) (i : ℕ) → index s sub ≡ some i → has_prefix (drop i s) sub ≡ true
unfolding index
index_at_prefix [] sub i h = elim (Bool-cases (has_prefix [] sub)) [
  | inl e ↦ let z : i ≡ 0 = ground arith in rw z e
  | inr e ↦ absurd (cc)
]
index_at_prefix (c ∷ s) sub i h = elim (Bool-cases (has_prefix (c ∷ s) sub)) [
  | inl e ↦ let z : i ≡ 0 = ground arith in rw z e
  | inr e ↦
      let (j, found, next) = (Option.map-eq-some_iff _ _).0 (rw e at h) in
      rw (← next) (index_at_prefix s sub j found)
]

index_first_at :
    (k c : ℕ) (s sub : Text) (j : ℕ)
    → has_prefix (c ∷ s) sub ≡ false
    → k < suc j
    → ((k' : ℕ) → k' < j → has_prefix (drop k' s) sub ≡ false)
    → has_prefix (drop k (c ∷ s)) sub ≡ false
index_first_at zero c s sub j e lt ih = e
index_first_at (suc k) c s sub j e lt ih = ih k (omega arith)

pub index_first :
    (s sub : Text) (i k : ℕ) → index s sub ≡ some i → k < i → has_prefix (drop k s) sub ≡ false
unfolding index
index_first [] sub i k h lt = elim (Bool-cases (has_prefix [] sub)) [
  | inl e ↦ let z : i ≡ 0 = ground arith in absurd (omega arith)
  | inr e ↦ absurd (cc)
]
index_first (c ∷ s) sub i k h lt = elim (Bool-cases (has_prefix (c ∷ s) sub)) [
  | inl e ↦ let z : i ≡ 0 = ground arith in absurd (omega arith)
  | inr e ↦
      let (j, found, next) = (Option.map-eq-some_iff _ _).0 (rw e at h) in
      index_first_at k c s sub j e (omega arith) (λ k' lt'. index_first s sub j k' found lt')
]

index-none_tail : (c : ℕ) (s sub : Text) → index (c ∷ s) sub ≡ none → index s sub ≡ none
unfolding index
index-none_tail c s sub h = elim (Bool-cases (has_prefix (c ∷ s) sub)) [
  | inl e ↦ absurd (let bad = rw e at h in cc)
  | inr e ↦ elim (Option-cases (index s sub)) [
    | inl missing ↦ missing
    | inr (i, found) ↦ absurd (let bad = rw (e, found) at h in cc)
  ]
]

pub index-none :
    (s : Text) (p : ℕ) (sub : Text) (k : ℕ)
    → index s (p ∷ sub) ≡ none
    → has_prefix (drop k s) (p ∷ sub) ≡ false
unfolding index
index-none [] p sub zero h = unfold has_prefix in refl
index-none [] p sub (suc k) h = unfold has_prefix in refl
index-none (c ∷ s) p sub zero h = ground arith
index-none (c ∷ s) p sub (suc k) h = index-none s p sub k (index-none_tail c s (p ∷ sub) h)

pub length-le-has_prefix : (s p : Text) → has_prefix s p ≡ true → length p ≤ length s
length-le-has_prefix s p h =
    let whole = ap (length {A = ℕ}) (has_prefix_sound s p h) in
    omega (arith, whole, length-append p (drop (length p) s))
