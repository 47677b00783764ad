-- ===== src/Gitlab/Filter/Laws.antt =====
-- What the filter of a sender lets through.
use express_send.Common.{true, ◌||◌, List, [], ◌∷◌, ◌++◌, ◌≡◌, ◌↔◌, ◌⊎◌, refl, arith}
use express_send.Text.{Text, codes, contains}
use express_send.Gitlab.Filter.{event_matches, passes_filter}

-- An entry names the event by its full key, by its kind, or by `kind.*`.
event_matches-contains :
    (kind key : Text) (entries : List Text)
    → event_matches kind key entries
      ≡ (contains key entries || contains kind entries || contains (kind ++ codes ".*") entries)
unfolding event_matches contains
event_matches-contains kind key [] = refl
event_matches-contains kind key (e ∷ entries) =
    ground (arith, event_matches-contains kind key entries)

-- The lists of a filter name an event when they hold its key, its kind or `kind.*`.
abbrev pub Names : Text → Text → List Text → Type 0
Names kind key entries =
    (contains key entries ≡ true)
    ⊎ (contains kind entries ≡ true)
    ⊎ (contains (kind ++ codes ".*") entries ≡ true)

-- A list names an event exactly when it holds its key, its kind, or its kind followed by ".*".
pub event_matches_iff :
    (kind key : Text) (entries : List Text)
    → (event_matches kind key entries ≡ true) ↔ Names kind key entries
event_matches_iff kind key entries = ground (arith, event_matches-contains kind key entries)

-- An event passes exactly when `exclude` does not name it and `only` is empty or names it: an
-- entry of `exclude` wins over any entry of `only`.
pub passes_filter_iff :
    (kind key : Text) (only exclude : List Text)
    → (passes_filter kind key only exclude ≡ true)
      ↔ (((only ≡ []) ⊎ Names kind key only) × ¬ Names kind key exclude)
unfolding passes_filter
passes_filter_iff kind key [] exclude = ground (arith, event_matches-contains kind key exclude)
passes_filter_iff kind key (e ∷ only) exclude =
    ground
      (arith, event_matches-contains kind key (e ∷ only), event_matches-contains kind key exclude)
