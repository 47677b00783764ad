-- ===== src/Gitlab/Glob/Relation.antt =====
-- The meaning of a glob as a relation, and the greedy matcher against it.
use express_send.Common.{
  ℕ, ◌+◌, ◌==◌, ==_iff, true, List, [], ◌∷◌, ◌++◌, ◌≡◌, ◌≢◌, ◌↔◌, refl, sym, ap, ◌∙◌, inl, inr,
  length, drop, Bool-cases, Option-cases, arith, append_assoc, drop-append_length, subst,
}
use express_send.Text.{Text, has_prefix, index, split, push_first}
use express_send.Text.Laws.{
  eqb_iff, has_prefix_sound, has_prefix-append, has_suffix_sound, has_suffix-append, index_sound,
  index_complete, split_at_sep, split_push,
}
use express_send.Gitlab.Glob.{star_byte, glob_from, glob_parts, glob_match}

-- A star stands for any run of bytes, every other byte of the pattern for itself.
pub data Matches : Text → Text → Type 0 where
  end : Matches [] []
  lit : {c : ℕ} {p v : Text} → c ≢ star_byte → Matches p v → Matches (c ∷ p) (c ∷ v)
  star :
      {c : ℕ} {p v u : Text} (w : Text)
      → c ≡ star_byte
      → u ≡ w ++ v
      → Matches p v
      → Matches (c ∷ p) u

-- A value is the parts of a split pattern in order, with any run of bytes between two of them.
abbrev Parts : List Text → Text → Type 0
Parts [] v = ⊥
Parts (p ∷ []) v = v ≡ p
Parts (p ∷ q ∷ more) v = (w : Text) × (u : Text) × (v ≡ p ++ (w ++ u)) × Parts (q ∷ more) u

glob_from_sound :
    (q : Text) (more : List Text) (v : Text)
    → glob_from q more v ≡ true
    → (w : Text) × (u : Text) × (v ≡ w ++ u) × Parts (q ∷ more) u
unfolding glob_from
glob_from_sound q [] v h = let (w, e) = has_suffix_sound v q h in (w, q, e, refl)
glob_from_sound q (r ∷ more) v h = elim (Option-cases (index v q)) [
  | inl e ↦ absurd (let bad = rw (e, glob_from) at h in cc)
  | inr (i, e) ↦
      let (w, whole, _) = index_sound v q i e in
      let rest = drop (i + length q) v in
      let (x, u, split_rest, parts) = glob_from_sound r more rest (rw (e, glob_from) at h) in
      (w, q ++ rest, whole, (x, u, ap (λ t. q ++ t) split_rest, parts))
]

glob_from_complete :
    (q : Text) (more : List Text) (w u : Text)
    → Parts (q ∷ more) u
    → glob_from q more (w ++ u) ≡ true
unfolding glob_from
glob_from_complete q [] w u h = rw h (has_suffix-append w q)
glob_from_complete q (r ∷ more) w u (x, t, e, parts) =
    let (i, y, found, after) = index_complete w q (x ++ t) in
    rw e (
      rw (found, glob_from)
        (rw after (rw (← append_assoc y x t) (glob_from_complete r more (y ++ x) t parts))))

Parts-push : (c : ℕ) (ps : List Text) (v : Text) → Parts ps v → Parts (push_first c ps) (c ∷ v)
Parts-push c [] v h = elim h [ ]
Parts-push c (p ∷ []) v h = ap (◌∷◌ c) h
Parts-push c (p ∷ q ∷ more) v (w, u, e, h) = (w, u, ap (◌∷◌ c) e, h)

Parts-pull :
    (c : ℕ) (ps : List Text) (v : Text)
    → (ps ≡ [] → ⊥)
    → Parts (push_first c ps) v
    → (u : Text) × (v ≡ c ∷ u) × Parts ps u
Parts-pull c [] v ne h = absurd (ne refl)
Parts-pull c (p ∷ []) v ne h = (p, h, refl)
Parts-pull c (p ∷ q ∷ more) v ne (w, u, e, h) = (p ++ (w ++ u), e, (w, u, refl, h))

Parts-skip : (ps : List Text) (w v : Text) → Parts ps v → Parts ([] ∷ ps) (w ++ v)
Parts-skip [] w v h = elim h [ ]
Parts-skip (p ∷ more) w v h = (w, v, refl, h)

Parts-unskip :
    (ps : List Text) (v : Text)
    → (ps ≡ [] → ⊥)
    → Parts ([] ∷ ps) v
    → (w : Text) × (u : Text) × (v ≡ w ++ u) × Parts ps u
Parts-unskip [] v ne h = absurd (ne refl)
Parts-unskip (p ∷ more) v ne h = h

split-ne-nil : (s : Text) (sep : ℕ) → split s sep ≡ [] → ⊥
unfolding split
split-ne-nil [] sep h = cc
split-ne-nil (c ∷ s) sep h = ground arith

Matches-Parts : {p v : Text} → Matches p v → Parts (split p star_byte) v
Matches-Parts end = unfold split in refl
Matches-Parts (lit {c} {p} {v} h m) =
    rw (split_push star_byte c p h) (Parts-push c _ v (Matches-Parts m))
Matches-Parts (star {c} {p} {v} {u} w e whole m) =
    rw (e, whole, split_at_sep star_byte p) (Parts-skip _ w v (Matches-Parts m))

Matches-nil : (v : Text) → Parts ([] ∷ []) v → Matches [] v
Matches-nil v h = subst (Matches []) (sym h) end

Parts-Matches : (p v : Text) → Parts (split p star_byte) v → Matches p v
Parts-Matches [] v h = Matches-nil v (unfold split in h)
Parts-Matches (c ∷ p) v h = elim (Bool-cases (c == star_byte)) [
  | inl e ↦
      let is_star : c ≡ star_byte = (==_iff c star_byte).0 e in
      let (w, u, whole, parts) =
        Parts-unskip (split p star_byte) v (split-ne-nil p star_byte)
          (rw (is_star, split_at_sep star_byte p) at h) in
      star w is_star whole (Parts-Matches p u parts)
  | inr e ↦
      let other : c ≢ star_byte = ground arith in
      let (u, whole, parts) =
        Parts-pull c (split p star_byte) v (split-ne-nil p star_byte)
          (rw (split_push star_byte c p other) at h) in
      subst (Matches (c ∷ p)) (sym whole) (lit other (Parts-Matches p u parts))
]

push_first_single :
    (c : ℕ) (ps : List Text) (p : Text)
    → push_first c ps ≡ p ∷ []
    → ps ≢ []
    → (q : Text) × (ps ≡ q ∷ []) × (p ≡ c ∷ q)
push_first_single c [] p e ne = absurd (ne refl)
push_first_single c (q ∷ []) p e ne = (q, refl, cc)
push_first_single c (q ∷ r ∷ more) p e ne = cc

-- A text with no separator is its own only part.
split_single : (s : Text) (p : Text) → split s star_byte ≡ p ∷ [] → p ≡ s
split_single [] p e = unfold split in cc
split_single (c ∷ s) p e = elim (Bool-cases (c == star_byte)) [
  | inl is_star ↦
      let star_eq : c ≡ star_byte = (==_iff c star_byte).0 is_star in
      absurd
        (split-ne-nil s star_byte (let bad = rw (star_eq, split_at_sep star_byte s) at e in cc))
  | inr not_star ↦
      let other : c ≢ star_byte = ground arith in
      let (q, single, whole) =
        push_first_single c (split s star_byte) p (rw (split_push star_byte c s other) at e)
          (split-ne-nil s star_byte) in
      whole ∙ ap (◌∷◌ c) (split_single s q single)
]

glob_parts_iff :
    (pattern : Text) (ps : List Text) (v : Text)
    → split pattern star_byte ≡ ps
    → (glob_parts pattern ps v ≡ true) ↔ Parts ps v
unfolding glob_parts
glob_parts_iff pattern [] v e = absurd (split-ne-nil pattern star_byte e)
glob_parts_iff pattern (p ∷ []) v e =
    let same = split_single pattern p e in
    (λ h. sym ((eqb_iff pattern v).0 h) ∙ sym same, λ h. (eqb_iff pattern v).1 (sym (h ∙ same)))
glob_parts_iff pattern (p ∷ q ∷ more) v e = (sound, complete)
  where
    sound : glob_parts pattern (p ∷ q ∷ more) v ≡ true → Parts (p ∷ q ∷ more) v
    sound h =
        let starts : has_prefix v p ≡ true = ground arith in
        let (w, u, whole, parts) = glob_from_sound q more _ (rw starts at h) in
        (w, u, has_prefix_sound v p starts ∙ ap (λ t. p ++ t) whole, parts)

    complete : Parts (p ∷ q ∷ more) v → glob_parts pattern (p ∷ q ∷ more) v ≡ true
    complete (w, u, whole, parts) =
        rw (whole, has_prefix-append p (w ++ u), drop-append_length p (w ++ u))
          (glob_from_complete q more w u parts)

-- A value passes the matcher exactly when it matches the pattern in the relation: the greedy
-- choice of the first occurrence of each part neither accepts too much nor misses a match.
pub glob_match_iff :
    (pattern value : Text) → (glob_match pattern value ≡ true) ↔ Matches pattern value
unfolding glob_match
glob_match_iff pattern value =
    let parts = glob_parts_iff pattern (split pattern star_byte) value refl in
    (λ h. Parts-Matches pattern value (parts.0 h), λ m. parts.1 (Matches-Parts m))
