-- ===== src/Corpus/Lines.antt =====
-- src/adapters/persistence/corpus_loader.py: `_json_lines`.
use ai_system_engineering_cu.Base.{
  ℕ, ◌≡◌, refl, Bool, true, false, ◌&&◌, ◌||◌, Option, none, some, List, [], ◌∷◌, Text, Table, leb,
  ◌==◌, nat_eq, cons_head, strip, filter, if◌then◌else◌,
}
use ai_system_engineering_cu.Effects.{Outcome, returned, raised, each}
use ai_system_engineering_cu.Domain.Documents.{DocumentRecord}
use ai_system_engineering_cu.Corpus.Calls.{Error, corpus_fixture_error, value_error}

-- What the loader uses of `json`, of `bytes.decode` and of pydantic. `is_text v s` is `v == s`
-- for a text `s`; `validate` is `DocumentRecord.model_validate`.
pub record Json : Type 1 where
  pub Value : Type 0
  pub decode : List ℕ → Option Text
  pub loads : Text → Option Value
  pub as_object : Value → Option (Table Text Value)
  pub is_text : Value → Text → Bool
  pub is_hashable : Value → Bool
  pub validate : Table Text Value → Option DocumentRecord

-- The code points that end a line for `str.splitlines`.
unfoldable pub is_line_end : ℕ → Bool
is_line_end c = leb 10 c && leb c 13 || leb 28 c && leb c 30 || c == 133 || leb 8232 c && leb c 8233

-- `s.splitlines()`, where "\r\n" ends one line.
unfoldable pub split_lines : Text → List Text
unfolding is_line_end cons_head
split_lines [] = []
split_lines (c ∷ []) = if is_line_end c then [] ∷ [] else (c ∷ []) ∷ []
split_lines (c ∷ d ∷ s) = elim (c == 13 && d == 10) [
  | true ↦ [] ∷ split_lines s
  | false ↦ elim (is_line_end c) [
    | true ↦ [] ∷ split_lines (d ∷ s)
    | false ↦ cons_head c (split_lines (d ∷ s))
  ]
]

abbrev has_text : Text → Bool
has_text [] = false
has_text (c ∷ s) = true

-- `if not line.strip(): continue`
unfoldable pub is_kept : Text → Bool
unfolding strip
is_kept line = has_text (strip line)

module _ (json : Json) where
  object_or_error : Option (Table Text json.Value) → Outcome Error (Table Text json.Value)
  object_or_error none = raised corpus_fixture_error
  object_or_error (some object) = returned object

  value_or_error : Option json.Value → Outcome Error (Table Text json.Value)
  unfolding object_or_error
  value_or_error none = raised corpus_fixture_error
  value_or_error (some value) = object_or_error (json.as_object value)

  unfoldable pub record_of : Text → Outcome Error (Table Text json.Value)
  unfolding value_or_error
  record_of line = value_or_error (json.loads line)

  decoded_lines : Option Text → Outcome Error (List (Table Text json.Value))
  unfolding record_of split_lines is_kept each filter
  decoded_lines none = raised value_error
  decoded_lines (some text) = each record_of (filter is_kept (split_lines text))

  unfoldable pub json_lines : List ℕ → Outcome Error (List (Table Text json.Value))
  unfolding decoded_lines
  json_lines payload = decoded_lines (json.decode payload)

lines_test : split_lines (97 ∷ 13 ∷ 10 ∷ 10 ∷ 98 ∷ []) ≡ (97 ∷ []) ∷ [] ∷ (98 ∷ []) ∷ []
unfolding split_lines is_line_end cons_head
lines_test = refl
