-- ===== src/Routes/Corpus.antt =====
-- src/api/routes.py: the route of the corpus objects. `objects` is the listing that `create_app`
-- receives.
use ai_system_engineering_cu.Base.{ℕ, not, Option, none, some, List, Text, if◌then◌else◌}
use ai_system_engineering_cu.Effects.{pure, ◌>>=◌, attempt}
use ai_system_engineering_cu.Domain.Validation.{has_length}
use ai_system_engineering_cu.Storage.Calls.{Action, Error, object_store_unavailable}
use ai_system_engineering_cu.Routes.Http.{Response, responded, refused, answered}

pub record CorpusObjects : Type 0 where
  pub prefix : Text
  pub keys : List Text

objects_status : Error → Option ℕ
objects_status object_store_unavailable = some 503
objects_status _ = none

abbrev listed : Text → List Text → Response CorpusObjects
listed prefix keys = responded 200 (record { prefix = prefix; keys = keys })

unfoldable pub corpus_objects : (Text → Action (List Text)) → Text → Action (Response CorpusObjects)
unfolding objects_status has_length
corpus_objects objects prefix =
    if not (has_length 200 prefix)
    then pure (refused 422)
    else do keys ← attempt (objects prefix); answered objects_status (listed prefix) keys
