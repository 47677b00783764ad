-- ===== src/Token/Cache/Laws.antt =====
-- What the cache gives back.
use express_send.Common.{
  ◌≤◌, arith, ◌≡◌, ◌≢◌, refl, ap, ◌∙◌, inl, inr, Bool-cases, true, false, Option, if◌then◌else◌,
  none, some, List, [], ◌∷◌, map, ltb, ℕ, ◌+◌,
}
use express_send.Text.{Text, eqb, contains, lookup}
use express_send.Text.Laws.{eqb_iff, eqb_of_neq}
use express_send.Text.Maps.{lookup-map_set, lookup-map_set_other}
use express_send.Text.Sets.{Distinct}
use express_send.Token.Cache.{CacheEntry, CacheFile, entries, file_get, prune, file_set}

absent :
    (k : Text) (m : List (Text × CacheEntry))
    → contains k (map (λ (p : Text × CacheEntry). p.0) m) ≡ false
    → lookup k m ≡ none
unfolding lookup contains
absent k [] h = refl
absent k ((j, v) ∷ m) h = elim (Bool-cases (eqb j k)) [
  | inl x ↦ absurd (let bad = rw x at h in cc)
  | inr x ↦ rw x (absent k m (rw x at h))
]

absent-prune :
    (now : ℕ) (k : Text) (m : List (Text × CacheEntry))
    → lookup k m ≡ none
    → lookup k (prune now m) ≡ none
unfolding lookup prune
absent-prune now k [] h = refl
absent-prune now k ((j, v) ∷ m) h = elim (Bool-cases (eqb j k)) [
  | inl x ↦ absurd (let bad = rw x at h in cc)
  | inr x ↦ elim (Bool-cases (ltb v.expires now)) [
    | inl y ↦ rw (y, prune) (absent-prune now k m (rw x at h))
    | inr y ↦ rw (y, prune, x) (absent-prune now k m (rw x at h))
  ]
]

-- Removing the expired entries changes no answer.
file_get-prune :
    (now later : ℕ) (k : Text) (m : List (Text × CacheEntry))
    → now ≤ later
    → Distinct (map (λ (p : Text × CacheEntry). p.0) m)
    → file_get later k (some (prune now m)) ≡ file_get later k (some m)
unfolding file_get prune lookup
file_get-prune now later k [] le d = refl
file_get-prune now later k ((j, v) ∷ m) le (new, d) = elim (Bool-cases (eqb j k)) [
  | inr x ↦ elim (Bool-cases (ltb v.expires now)) [
    | inl y ↦ rw (file_get, prune, lookup, y, x) (file_get-prune now later k m le d)
    | inr y ↦ rw (file_get, prune, lookup, y, x) (file_get-prune now later k m le d)
  ]
  | inl x ↦ elim (Bool-cases (ltb v.expires now)) [
    | inl y ↦
        let gone = absent-prune now k m (absent k m (rw ((eqb_iff j k).0 x) at new)) in
        let expired : ltb v.expires later ≡ true = ground (arith, le, y) in
        rw (file_get, prune, lookup, y, x, gone, expired) refl
    | inr y ↦ rw (file_get, prune, lookup, y, x) refl
  ]
]

abbrev answer : ℕ → Option CacheEntry → Text
answer now none = []
answer now (some e) = if ltb e.expires now then [] else e.token

entries-some :
    (file : CacheFile) (now : ℕ) (k : Text)
    → file_get now k (some (entries file)) ≡ file_get now k file
unfolding file_get
entries-some none now k = refl
entries-some (some m) now k = refl

-- A token that is stored is the one that is read back until it expires, and storing it changes
-- the answer for no other key, then or later, though it drops the expired entries; a map has no key twice.
pub file_get-file_set :
    (now later ttl : ℕ) (key token other : Text) (file : CacheFile)
    → Distinct (map (λ (p : Text × CacheEntry). p.0) (entries file))
    → (ltb (now + ttl) later ≡ false
        → file_get later key (file_set true now key token ttl file) ≡ token)
      × (key ≢ other
          → now ≤ later
          → file_get later other (file_set true now key token ttl file) ≡ file_get later other file)
unfolding file_get file_set
file_get-file_set now later ttl key token other file d = (
  λ valid.
      rw
        (
          file_get,
          file_set,
          lookup-map_set key (record { token = token; expires = now + ttl })
              (prune now (entries file)),
          valid,
        )
        refl,
  λ ne le.
      ap (λ o. answer later o)
        (lookup-map_set_other key other (record { token = token; expires = now + ttl })
          (prune now (entries file)) (eqb_of_neq key other ne))
      ∙ file_get-prune now later other (entries file) le d
      ∙ entries-some file later other,
)
