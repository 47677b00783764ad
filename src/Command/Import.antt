-- ===== src/Command/Import.antt =====
-- The import of chats: the loop of `runChatsImport`, internal/cmd/chats.go, over the chats that
-- `importableChats` gives. Saving and printing are left out.
pub mod Laws
use express_send.Common.{
  Bool, true, false, not, if◌then◌else◌, Option, none, some, List, [], ◌∷◌, ◌++◌, Result, ok, err,
  ◌>>=◌, ℕ, map,
}
use express_send.Text.{Text, codes, eqb, lookup, map_set}
use express_send.Config.Types.{ChatSettings}
use express_send.Config.Chats.{Chats}
use express_send.Command.Alias.{generate_chat_alias}

-- `ChatInfo`, as far as the loop reads it.
pub record ChatInfo : Type 0 where
  pub group_chat_id : Text
  pub name : Text
  pub chat_type : Text

pub record ImportedChat : Type 0 where
  pub alias : Text
  pub id : Text
  pub name : Text
  pub chat_type : Text
  pub reason : Text

pub record ImportOpts : Type 0 where
  pub prefix : Text
  pub bot : Text
  pub skip_existing : Bool
  pub overwrite : Bool

-- The variables of the loop.
pub record Import : Type 0 where
  pub chats : Chats
  pub generated : List Text
  pub id_index : List (Text × Text)
  pub added : List ImportedChat
  pub skipped : List ImportedChat

pub data ImportError : Type 0 where
  points_elsewhere : Text → Text → ImportError
  no_alias : ImportError

-- `buildChatIDIndex`.
unfoldable pub build_chat_id_index : Chats → List (Text × Text)
unfolding map_set
build_chat_id_index chats = index_from [] chats
  where
    index_from : List (Text × Text) → Chats → List (Text × Text)
    index_from index [] = index
    index_from index ((alias, chat) ∷ rest) = index_from (map_set chat.id alias index) rest

-- `delete` of a key.
unfoldable pub map_delete : Text → List (Text × Text) → List (Text × Text)
unfolding eqb
map_delete k [] = []
map_delete k ((j, v) ∷ m) = let rest = map_delete k m in if eqb j k then rest else (j, v) ∷ rest

abbrev pub item : ChatInfo → Text → Text → ImportedChat
item chat alias reason = record {
  alias = alias;
  id = chat.group_chat_id;
  name = chat.name;
  chat_type = chat.chat_type;
  reason = reason;
}

module _ (plain : Text → Text) (decimal : ℕ → Text) (o : ImportOpts) where
  abbrev pub skip : ChatInfo → Text → Text → Import → Import
  skip chat alias reason s = record s { skipped = s.skipped ++ (item chat alias reason ∷ []) }

  -- The chat is put under the alias.
  abbrev pub put : ChatInfo → Text → ChatSettings → List (Text × Text) → Import → Import
  put chat alias settings index s = record s {
    chats = map_set alias settings s.chats;
    generated = alias ∷ s.generated;
    id_index = map_set chat.group_chat_id alias index;
    added = s.added ++ (item chat alias [] ∷ []);
  }

  -- An alias that the configuration has already.
  unfoldable pub import_existing :
      ChatInfo → Text → ChatSettings → Import → Result ImportError Import
  unfolding eqb map_set map_delete
  import_existing chat alias existing s =
      if eqb existing.id chat.group_chat_id
      then ok (skip chat alias (codes "already exists") s)
      else if o.skip_existing
      then ok (skip chat alias (codes "alias conflict with " ++ existing.id) s)
      else if not o.overwrite
      then err (points_elsewhere alias existing.id)
      else ok (
          put chat alias
            (record existing {
              id = chat.group_chat_id;
              bot = if eqb o.bot [] then existing.bot else o.bot;
            })
            (map_delete existing.id s.id_index) s)

  unfoldable pub import_under : ChatInfo → Text → Import → Result ImportError Import
  unfolding import_existing lookup map_set
  import_under chat alias s = elim (lookup alias s.chats) [
    | some existing ↦ import_existing chat alias existing s
    | none ↦ ok (
        put chat alias (record { id = chat.group_chat_id; bot = o.bot; default = false }) s.id_index
          s)
  ]

  unfoldable pub import_chat : ChatInfo → Import → Result ImportError Import
  unfolding import_under lookup generate_chat_alias
  import_chat chat s = elim (lookup chat.group_chat_id s.id_index) [
    | some alias ↦ ok (
        skip chat alias
          (if eqb alias [] then codes "already exists" else codes "already exists as " ++ alias) s)
    | none ↦
        elim (generate_chat_alias plain decimal chat.name chat.group_chat_id o.prefix s.generated) [
          | some alias ↦ import_under chat alias s
          | none ↦ err no_alias
        ]
  ]

  unfoldable pub import_chats : List ChatInfo → Import → Result ImportError Import
  unfolding import_chat
  import_chats [] s = ok s
  import_chats (chat ∷ chats) s = import_chat chat s >>= λ s'. import_chats chats s'
