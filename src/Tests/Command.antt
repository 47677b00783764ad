-- ===== src/Tests/Command.antt =====
-- The theorems on the commands at concrete inputs.
use express_send.Common.{
  ℕ, zero, suc, true, false, some, List, [], ◌∷◌, ◌≡◌, refl, ap, arith, length,
}
use express_send.Text.{Text, codes, contains, eqb, lookup, map_set}
use express_send.Command.Alias.{
  generate_chat_alias, base_alias, slugify_chat_alias, slug_from, trim_hyphens,
}
use express_send.Command.Import.{
  ChatInfo, ImportOpts, Import, import_under, import_chat, import_chats,
}
use express_send.Command.Import.Laws.{Kept, import_chats-Kept}
use express_send.Command.Alias.Laws.{generate_chat_alias-fresh}

-- Numbers as strokes.
abbrev strokes : ℕ → Text
strokes zero = []
strokes (suc n) = b'i' ∷ strokes n

length-strokes : (n : ℕ) → length (strokes n) ≡ n
length-strokes zero = refl
length-strokes (suc n) = ap suc (length-strokes n)

strokes-injective : (i j : ℕ) → strokes i ≡ strokes j → i ≡ j
strokes-injective i j h =
    let same : length (strokes i) ≡ length (strokes j) = ap length h in
    omega (arith, same, length-strokes i, length-strokes j)

abbrev names : List Text
names = codes "ops" ∷ codes "ops-ii" ∷ []

generate_chat_alias-fresh_example :
    (a : Text) × (generate_chat_alias (λ s. s) strokes (codes "ops!") (codes "c1") [] names
      ≡ some a)
    × (contains a names ≡ false)
generate_chat_alias-fresh_example =
    generate_chat_alias-fresh (λ s. s) strokes strokes-injective (codes "ops!") (codes "c1") []
      names

-- An import of one new chat and one that is configured.
abbrev opts : ImportOpts
opts = record { prefix = []; bot = []; skip_existing = false; overwrite = false }

abbrev before : Import
before = record {
  chats = (codes "ops", record { id = codes "c1"; bot = codes "main"; default = true }) ∷ [];
  generated = [];
  id_index = (codes "c1", codes "ops") ∷ [];
  added = [];
  skipped = [];
}

abbrev found : List ChatInfo
found =
    record { group_chat_id = codes "c1"; name = codes "ops"; chat_type = codes "group_chat" }
    ∷ record { group_chat_id = codes "c2"; name = codes "dev"; chat_type = codes "group_chat" }
    ∷ []

abbrev after : Import
after = record {
  chats =
      (codes "ops", record { id = codes "c1"; bot = codes "main"; default = true })
      ∷ (codes "dev", record { id = codes "c2"; bot = []; default = false })
      ∷ [];
  generated = codes "dev" ∷ [];
  id_index = (codes "c1", codes "ops") ∷ (codes "c2", codes "dev") ∷ [];
  added =
      record {
        alias = codes "dev";
        id = codes "c2";
        name = codes "dev";
        chat_type = codes "group_chat";
        reason = [];
      }
      ∷ [];
  skipped =
      record {
        alias = codes "ops";
        id = codes "c1";
        name = codes "ops";
        chat_type = codes "group_chat";
        reason = codes "already exists as ops";
      }
      ∷ [];
}

import_chats-Kept_example : Kept before after
unfolding import_chats import_chat import_under lookup map_set eqb contains generate_chat_alias
    base_alias slugify_chat_alias slug_from trim_hyphens
import_chats-Kept_example = import_chats-Kept (λ s. s) strokes opts refl found before after refl
