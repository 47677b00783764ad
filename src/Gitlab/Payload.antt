-- ===== src/Gitlab/Payload.antt =====
-- A decoded webhook body and the fields that are read from it: `gitlabNestedGet`,
-- `deriveEventKey` and `normalizeGitlab` of internal/server/handler_gitlab.go, and `gitlabBranch`
-- and `gitlabProject` of internal/server/gitlab_routing.go.
use express_send.Common.{Bool, ◌||◌, if◌then◌else◌, Option, none, some, List, [], ◌∷◌, ◌++◌}
use express_send.Text.{Text, codes, eqb, split}

-- `any`, as the JSON decoder fills it. `null` is `nil` too. A number stands for itself by the
-- text that `strconv.FormatFloat(x, 'f', -1, 64)` gives, which is all that is read of it.
mutual
  pub data Json : Type 0 where
    null : Json
    bool : Bool → Json
    num : Text → Json
    str : Text → Json
    arr : Items → Json
    obj : Fields → Json

  pub data Items : Type 0 where
    nil : Items
    cons : Json → Items → Items

  -- The entries of a map; its keys are distinct.
  pub data Fields : Type 0 where
    end : Fields
    field : Text → Json → Fields → Fields

-- `obj[key]`.
unfoldable pub member : Text → Fields → Option Json
unfolding eqb
member k end = none
member k (field j v fs) = if eqb j k then some v else member k fs

-- The loop of `gitlabNestedGet`.
unfoldable pub walk : Json → List Text → Json
unfolding member
walk cur [] = cur
walk (obj fs) (part ∷ parts) = elim (member part fs) [ none ↦ null | some v ↦ walk v parts ]
walk _ (part ∷ parts) = null

unfoldable pub gitlab_nested_get : Fields → Text → Json
unfolding walk
gitlab_nested_get raw path = if eqb path [] then null else walk (obj raw) (split path b'.')

abbrev pub as_string : Json → Text
as_string (str s) = s
as_string _ = []

unfoldable pub gitlab_string_at : Fields → Text → Text
unfolding gitlab_nested_get
gitlab_string_at raw path = as_string (gitlab_nested_get raw path)

-- `if a != "" { return a }; return b`.
abbrev pub or_else : Text → Text → Text
or_else a b = if eqb a [] then b else a

-- The subtype of an event, by its kind.
unfoldable pub event_subtype : Fields → Text → Text
unfolding gitlab_string_at
event_subtype raw kind =
    if eqb kind (codes "merge_request") || eqb kind (codes "issue")
    then gitlab_string_at raw (codes "object_attributes.action")
    else if eqb kind (codes "note")
    then gitlab_string_at raw (codes "object_attributes.noteable_type")
    else if eqb kind (codes "pipeline")
    then gitlab_string_at raw (codes "object_attributes.status")
    else if eqb kind (codes "build")
    then gitlab_string_at raw (codes "build_status")
    else if eqb kind (codes "push") || eqb kind (codes "tag_push")
    then []
    else or_else (gitlab_string_at raw (codes "object_attributes.action")) (
        or_else (gitlab_string_at raw (codes "object_attributes.status"))
          (gitlab_string_at raw (codes "status")))

-- The last switch of `deriveEventKey`.
unfoldable pub join_key : Text → Text → Text
join_key kind subtype =
    if eqb kind [] then [] else if eqb subtype [] then kind else kind ++ (b'.' ∷ subtype)

pub record EventKey : Type 0 where
  pub kind : Text
  pub subtype : Text
  pub event_key : Text

unfoldable pub derive_event_key : Fields → EventKey
unfolding event_subtype join_key
derive_event_key raw =
    let kind = gitlab_string_at raw (codes "object_kind") in
    let subtype = event_subtype raw kind in
    record { kind = kind; subtype = subtype; event_key = join_key kind subtype }

pub record GitlabView : Type 0 where
  pub kind : Text
  pub action : Text
  pub event_key : Text
  pub project : Text
  pub user : Text
  pub title : Text
  pub url : Text
  pub raw : Fields

unfoldable pub normalize_gitlab : Fields → GitlabView
unfolding derive_event_key
normalize_gitlab raw =
    let key = derive_event_key raw in
    let at = λ (path : Text). gitlab_string_at raw path in
    record {
      kind = key.kind;
      action = or_else (at (codes "object_attributes.action")) key.subtype;
      event_key = key.event_key;
      project = or_else (at (codes "project.name")) (at (codes "project.path_with_namespace"));
      user =
          or_else (or_else (at (codes "user.name")) (at (codes "user.username")))
            (at (codes "user_name"));
      title = at (codes "object_attributes.title");
      url = or_else (at (codes "object_attributes.url")) (at (codes "project.web_url"));
      raw = raw;
    }
