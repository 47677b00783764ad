-- ===== src/Gitlab/Filter.antt =====
-- The event filter of a sender: `eventMatches` and `passesFilter` of
-- internal/server/handler_gitlab.go.
pub mod Laws
use express_send.Common.{Bool, true, false, ◌||◌, ◌&&◌, not, if◌then◌else◌, List, [], ◌∷◌, ◌++◌}
use express_send.Text.{Text, codes, eqb}

unfoldable pub event_matches : Text → Text → List Text → Bool
event_matches kind event_key [] = false
event_matches kind event_key (e ∷ entries) =
    eqb e event_key
    || eqb e kind
    || eqb e (kind ++ codes ".*")
    || event_matches kind event_key entries

abbrev is_nonempty : List Text → Bool
is_nonempty [] = false
is_nonempty (_ ∷ _) = true

unfoldable pub passes_filter : Text → Text → List Text → List Text → Bool
passes_filter kind event_key only exclude =
    if is_nonempty only && not (event_matches kind event_key only)
    then false
    else if event_matches kind event_key exclude
    then false
    else true
