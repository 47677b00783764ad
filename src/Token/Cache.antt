-- ===== src/Token/Cache.antt =====
-- The token cache in a file: internal/token/file.go. A file is what reading and decoding it gives;
-- `none` stands for one that cannot be read. A time is a number of seconds.
pub mod Laws
use express_send.Common.{ℕ, ◌+◌, ltb, Bool, ◌||◌, if◌then◌else◌, Option, none, some, List, [], ◌∷◌}
use express_send.Text.{Text, eqb, lookup, map_set}

-- `fileCacheEntry`.
pub record CacheEntry : Type 0 where
  pub token : Text
  pub expires : ℕ

abbrev pub CacheFile : Type 0
CacheFile = Option (List (Text × CacheEntry))

-- What a missing map reads as.
abbrev pub entries : CacheFile → List (Text × CacheEntry)
entries none = []
entries (some m) = m

-- `FileCache.Get`: "" for a miss.
unfoldable pub file_get : ℕ → Text → CacheFile → Text
unfolding lookup
file_get now key file = elim (lookup key (entries file)) [
  | none ↦ []
  | some e ↦ if ltb e.expires now then [] else e.token
]

-- The loop that removes the expired entries.
unfoldable pub prune : ℕ → List (Text × CacheEntry) → List (Text × CacheEntry)
prune now [] = []
prune now ((k, e) ∷ m) = let rest = prune now m in if ltb e.expires now then rest else (k, e) ∷ rest

-- `FileCache.Set`; `writable` tells whether the file is written.
unfoldable pub file_set : Bool → ℕ → Text → Text → ℕ → CacheFile → CacheFile
unfolding prune map_set
file_set writable now key token ttl file =
    if writable
    then some
        (map_set key (record { token = token; expires = now + ttl }) (prune now (entries file)))
    else file

-- `delete(data, key)`.
unfoldable pub remove_key : Text → List (Text × CacheEntry) → List (Text × CacheEntry)
unfolding eqb
remove_key key [] = []
remove_key key ((k, e) ∷ m) =
    let rest = remove_key key m in if eqb k key then rest else (k, e) ∷ rest

-- `FileCache.Delete`.
unfoldable pub file_delete : Bool → Text → CacheFile → CacheFile
unfolding remove_key
file_delete writable key none = none
file_delete writable key (some m) = if writable then some (remove_key key m) else some m
