-- ===== src/Routes/Labels.antt =====
-- src/api/routes.py: `_route_label`, and what the middleware counts.
mod Bounded
use ai_system_engineering_cu.Base.{
  ℕ, Bool, true, false, ◌&&◌, Text, List, [], ◌∷◌, ◌++◌, literal, ◌==◌, nat_eq, text_eq, elem,
  length, drop, ◌-◌, leb, decimal, if◌then◌else◌,
}
use ai_system_engineering_cu.Effects.{Outcome, returned, raised}
use ai_system_engineering_cu.Routes.Http.{Response, responded, refused}

abbrev pub known_routes : List Text
known_routes =
    literal "/api/v1/readings"
    ∷ literal "/api/v1/retrieval/search"
    ∷ literal "/api/v1/corpus/objects"
    ∷ literal "/api/v1/experiments/retrieval"
    ∷ literal "/api/v1/documents"
    ∷ literal "/api/v2/documents"
    ∷ literal "/api/v2/readings"
    ∷ literal "/health/live"
    ∷ literal "/health/ready"
    ∷ literal "/metrics"
    ∷ []

-- `s.startswith(prefix)`
unfoldable pub starts_with : Text → Text → Bool
starts_with [] s = true
starts_with (c ∷ prefix) [] = false
starts_with (c ∷ prefix) (d ∷ s) = c == d && starts_with prefix s

-- `s.endswith(suffix)`
unfoldable pub ends_with : Text → Text → Bool
ends_with suffix s = leb (length suffix) (length s) && drop (length s - length suffix) s == suffix

abbrev pub exception_route : Text
exception_route = literal "/api/v1/exceptions/{exception_id}"

abbrev pub document_route : Text
document_route = literal "/api/v1/documents/{document_id}"

abbrev pub chunks_route : Text
chunks_route = literal "/api/v1/documents/{document_id}/chunks"

unfoldable pub route_label : Text → Text
unfolding starts_with ends_with elem
route_label path =
    if starts_with (literal "/api/v1/exceptions/") path
    then exception_route
    else if starts_with (literal "/api/v1/documents/") path
    then (if ends_with (literal "/chunks") path then chunks_route else document_route)
    else if elem path known_routes
    then path
    else literal "unmatched"

-- The status that `record_request` counts.
unfoldable pub status_label : {E A : Type 0} → Outcome E (Response A) → Text
unfolding decimal
status_label (returned (responded status body)) = decimal status
status_label (returned (refused status)) = decimal status
status_label (raised e) = literal "500"
