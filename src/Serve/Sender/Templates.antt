-- ===== src/Serve/Sender/Templates.antt =====
-- The template registry: `ParseGitlabTemplates` and `canonGitlabTemplateKey`,
-- internal/server/handler_gitlab.go.
use express_send.Common.{
  not, if◌then◌else◌, Option, none, some, List, [], ◌∷◌, Result, ok, err, ◌>>=◌,
}
use express_send.Text.{Text, codes, eqb, lookup, map_set, cut_suffix}
use express_send.Config.Chats.{sorted_map_keys}
use express_send.Gitlab.Handler.{GitlabTemplates}

pub data TemplateError : Type 0 where
  same_catch_all : Text → Text → TemplateError
  unparsed : Text → Text → TemplateError
  no_default : TemplateError

unfoldable pub canon_gitlab_template_key : Text → Text
unfolding cut_suffix
canon_gitlab_template_key key = elim (cut_suffix key (codes ".*")) [ some k ↦ k | none ↦ key ]

-- The loop over the sorted keys, with the key of each slot seen before.
unfoldable pub check_slots : List (Text × Text) → List Text → Option TemplateError
unfolding canon_gitlab_template_key lookup
check_slots seen [] = none
check_slots seen (k ∷ keys) =
    let rest = check_slots ((canon_gitlab_template_key k, k) ∷ seen) keys in
    elim (lookup (canon_gitlab_template_key k) seen) [
      | none ↦ rest
      | some prev ↦ if not (eqb prev k) then some (same_catch_all prev k) else rest
    ]

unfoldable pub merge : List (Text × Text) → List (Text × Text) → List (Text × Text)
unfolding map_set canon_gitlab_template_key
merge merged [] = merged
merge merged ((k, v) ∷ m) = merge (map_set (canon_gitlab_template_key k) v merged) m

module _ {Template : Type 0} (parse : Text → Text → Result Text Template) where
  -- The loop over the merged templates: the default one, and the others by key.
  unfoldable pub parse_all :
      List (Text × Text) → Result TemplateError (Option Template × List (Text × Template))
  parse_all [] = ok (none, [])
  parse_all ((k, v) ∷ m) =
      let rest = parse_all m in
      elim (parse k v) [
        | err why ↦ err (unparsed k why)
        | ok t ↦ rest >>= λ r.
            if eqb k (codes "default") then ok (some t, r.1) else ok (r.0, (k, t) ∷ r.1)
      ]

  unfoldable pub parse_gitlab_templates :
      List (Text × Text) → List (Text × Text) → Result TemplateError (GitlabTemplates Template)
  unfolding check_slots merge parse_all sorted_map_keys
  parse_gitlab_templates defaults inline = elim (check_slots [] (sorted_map_keys inline)) [
    | some why ↦ err why
    | none ↦ parse_all (merge (merge [] defaults) inline) >>= λ r. elim r.0 [
      | none ↦ err no_default
      | some t ↦ ok (record { by_key = r.1; def = t })
    ]
  ]
