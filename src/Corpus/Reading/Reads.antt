-- ===== src/Corpus/Reading/Reads.antt =====
-- `_read_documents` only reads objects.
use ai_system_engineering_cu.Base.{List, [], ◌∷◌}
use ai_system_engineering_cu.Effects.{Outcome, returned, raised}
use ai_system_engineering_cu.Effects.Guarantee.{
  Makes, Makes-pure, Makes-raise, Makes-call, Makes-if, Makes-reply, Makes-bind,
}
use ai_system_engineering_cu.Domain.Documents.{DocumentRecord}
use ai_system_engineering_cu.Corpus.Calls.{Call, Error, read_object, object_store_error}
use ai_system_engineering_cu.Corpus.Lines.{Json}
use ai_system_engineering_cu.Corpus.Reading.{
  value_or_raise, parse_documents, parse_custody, with_custody, after_documents, read_documents,
}

abbrev pub IsRead : Call → Type 0
IsRead (read_object key) = Unit
IsRead _ = ⊥

value_or_raise-Makes : {A : Type 0} (o : Outcome Error A) → Makes IsRead (value_or_raise o)
value_or_raise-Makes (returned a) = Makes-pure a
value_or_raise-Makes (raised e) = Makes-raise e

after_documents-Makes :
    (json : Json) (documents : List DocumentRecord) → Makes IsRead (after_documents json documents)
unfolding after_documents
after_documents-Makes json [] = Makes-raise _
after_documents-Makes json (document ∷ documents) = Makes-if _ _ _ (Makes-raise _) (
    Makes-call _ _ tt (λ a. Makes-bind _ _ (Makes-reply object_store_error a) (λ payload.
      Makes-bind (value_or_raise (parse_custody json payload)) _ (value_or_raise-Makes _)
        (λ entries. value_or_raise-Makes (with_custody json (document ∷ documents) entries)))))

pub read_documents-Makes : (json : Json) → Makes IsRead (read_documents json)
unfolding read_documents
read_documents-Makes json = Makes-call _ _ tt (λ a.
    Makes-bind _ _ (Makes-reply object_store_error a) (λ payload.
      Makes-bind (value_or_raise (parse_documents json payload)) _ (value_or_raise-Makes _)
        (after_documents-Makes json)))
