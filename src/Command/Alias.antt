-- ===== src/Command/Alias.antt =====
-- The aliases of imported chats: `generateChatAlias` of internal/cmd/chats.go. Lower case and the
-- transliteration are `plain`, and `decimal` prints a number.
pub mod Laws
pub mod Slug
use express_send.Common.{
  ℕ, zero, suc, ◌==◌, ltb, leb, ◌+◌, Bool, true, false, ◌&&◌, ◌||◌, not, if◌then◌else◌, Option,
  none, some, List, [], ◌∷◌, ◌++◌, length, take,
}
use express_send.Text.{Text, codes, eqb, contains}

-- The letters and digits that an alias may have.
abbrev pub is_slug_char : ℕ → Bool
is_slug_char c = (leb b'a' c && leb c b'z') || (leb b'0' c && leb c b'9')

-- The loop of `slugifyChatAlias` with `lastHyphen`.
unfoldable pub slug_from : Bool → Text → Text
slug_from last_hyphen [] = []
slug_from last_hyphen (c ∷ name) =
    let rest = slug_from (not (is_slug_char c)) name in
    if is_slug_char c then c ∷ rest else if not last_hyphen then b'-' ∷ rest else rest

-- `strings.TrimRight` of hyphens.
unfoldable pub trim_hyphens : Text → Text
unfolding eqb
trim_hyphens [] = []
trim_hyphens (c ∷ s) =
    let rest = trim_hyphens s in if eqb rest [] && c == b'-' then [] else c ∷ rest

unfoldable pub short_chat_id : Text → Text
short_chat_id uuid = if ltb (length uuid) 8 then uuid else take 8 uuid

module _ (plain : Text → Text) where
  unfoldable pub slugify_chat_alias : Text → Text
  unfolding slug_from trim_hyphens
  slugify_chat_alias name = trim_hyphens (slug_from true (plain name))

  unfoldable pub base_alias : Text → Text → Text → Text
  unfolding slugify_chat_alias short_chat_id eqb
  base_alias name uuid prefix =
      let slug = slugify_chat_alias name in
      let base = if eqb slug [] then codes "chat-" ++ short_chat_id uuid else slug in
      let normalized_prefix = slugify_chat_alias prefix in
      if not (eqb normalized_prefix []) then normalized_prefix ++ (b'-' ∷ base) else base

module _ (decimal : ℕ → Text) where
  abbrev pub candidate : Text → ℕ → Text
  candidate base i = base ++ (b'-' ∷ decimal i)

  -- The loop over the candidates, on fuel.
  unfoldable pub find_alias : ℕ → Text → ℕ → List Text → Option Text
  unfolding contains
  find_alias zero base i taken = none
  find_alias (suc fuel) base i taken =
      let next = find_alias fuel base (suc i) taken in
      if contains (candidate base i) taken then next else some (candidate base i)

-- One round more than there are aliases.
unfoldable pub generate_chat_alias :
    (Text → Text) → (ℕ → Text) → Text → Text → Text → List Text → Option Text
unfolding base_alias find_alias contains
generate_chat_alias plain decimal name uuid prefix taken =
    let base = base_alias plain name uuid prefix in
    let numbered = find_alias decimal (suc (length taken)) base 2 taken in
    if contains base taken then numbered else some base
