-- ===== src/Server/Form.antt =====
-- The multipart form of a send request: `parseMultipart` of internal/server/handler_send.go. Reading
-- the form is the work of mime/multipart, reading JSON that of encoding/json.
use express_send.Common.{
  ◌==◌, Bool, false, not, if◌then◌else◌, Option, none, some, [], ◌∷◌, ◌++◌, Result, ok, err, ◌>>=◌,
}
use express_send.Text.{Text, codes, eqb}
use express_send.Server.Types.{SendPayload, FilePayload, OptsPayload}
use express_send.Server.MultiSend.{trim_space}

-- A multipart form: `r.FormValue`, and `readFilePart` where there is a file.
pub record Form : Type 0 where
  pub value : Text → Text
  pub file : Option (Result Text FilePayload)

-- encoding/json on the parts of a form.
pub record JsonReader : Type 0 where
  pub unmarshal_opts : Text → Result Text OptsPayload
  pub valid : Text → Bool

-- Does the text begin with a bracket?
abbrev opens_array : Text → Bool
opens_array [] = false
opens_array (c ∷ s) = c == b'['

module _ (json : JsonReader) where
  unfoldable pub form_opts : Form → Result Text (Option OptsPayload)
  form_opts form =
      let parsed : Result Text (Option OptsPayload) =
        elim (json.unmarshal_opts (form.value (codes "opts"))) [
          | err why ↦ err (codes "invalid opts JSON: " ++ why)
          | ok opts ↦ ok (some opts)
        ] in
      if eqb (form.value (codes "opts")) [] then ok none else parsed

  unfoldable pub form_metadata : Form → Result Text Text
  form_metadata form =
      let raw = form.value (codes "metadata") in
      if eqb raw []
      then ok []
      else if json.valid raw
      then ok raw
      else err (codes "invalid metadata JSON")

  unfoldable pub form_mentions : Form → Result Text Text
  unfolding trim_space
  form_mentions form =
      let raw = form.value (codes "mentions") in
      if eqb raw []
      then ok []
      else if not (json.valid raw)
      then err (codes "invalid mentions JSON")
      else if not (opens_array (trim_space raw))
      then err (codes "mentions must be a JSON array")
      else ok raw

  unfoldable pub form_file : Form → Result Text (Option FilePayload)
  form_file form = elim form.file [
    | none ↦ ok none
    | some (ok file) ↦ ok (some file)
    | some (err why) ↦ err why
  ]

  unfoldable pub parse_multipart : Result Text Form → Result Text SendPayload
  unfolding form_opts form_metadata form_mentions form_file
  parse_multipart (err why) = err (codes "parsing multipart form: " ++ why)
  parse_multipart (ok form) = form_opts form >>= λ opts. form_metadata form >>= λ metadata.
      form_mentions form >>= λ mentions. form_file form >>= λ file. ok (record {
        bot = form.value (codes "bot");
        chat_id = form.value (codes "chat_id");
        message = form.value (codes "message");
        file = file;
        status = form.value (codes "status");
        opts = opts;
        metadata = metadata;
        mentions = mentions;
        routing_mode = form.value (codes "routing_mode");
        bot_id = form.value (codes "bot_id");
        no_parse = false;
      })
