-- ===== src/Exceptions/Repository/Guarantee.antt =====
-- What the repository calls.
use ai_system_engineering_cu.Base.{Option, none, some, List, Text}
use ai_system_engineering_cu.Effects.Guarantee.{Makes, makes_rules}
use ai_system_engineering_cu.Domain.Contracts.{ExceptionState, ExceptionRecord}
use ai_system_engineering_cu.Exceptions.Calls.{
  Action, Call, select_exception, insert_exception, update_exception,
}
use ai_system_engineering_cu.Exceptions.Permitted.{IsPermitted, IsWorkerCall}
use ai_system_engineering_cu.Exceptions.Repository.{
  record_of, found_record, get, created, create, transition,
}

-- The calls of an action are permitted.
abbrev pub Permits : {A : Type 0} → Action A → Type 0
Permits m = Makes IsPermitted m

-- The calls of an action are those of a worker.
abbrev pub Works : {A : Type 0} → Action A → Type 0
Works m = Makes IsWorkerCall m

module _ {G : Call → Type 0} where
  record_of-Makes : (row : ExceptionRecord) → Makes G (record_of row)
  unfolding record_of
  record_of-Makes row = search makes_rules

  found_record-Makes : (row : Option ExceptionRecord) → Makes G (found_record row)
  unfolding found_record
  found_record-Makes none = search makes_rules
  found_record-Makes (some row) = search (makes_rules, record_of-Makes)

  pub get-Makes : (id : Text) → G (select_exception id) → Makes G (get id)
  unfolding get
  get-Makes id g = search (makes_rules, found_record-Makes)

  created-Makes :
      (r : ExceptionRecord) (row : Option ExceptionRecord)
      → G (select_exception r.exception_id)
      → Makes G (created r row)
  unfolding created
  created-Makes r (some row) g = record_of-Makes row
  created-Makes r none g = search (makes_rules, get-Makes)

  pub create-Makes :
      (r : ExceptionRecord)
      → G (insert_exception r)
      → G (select_exception r.exception_id)
      → Makes G (create r)
  unfolding create
  create-Makes r p g = search (makes_rules, created-Makes)

  pub transition-Makes :
      (id : Text) (expected : List ExceptionState) (target : ExceptionState)
      (summary failure_reason : Option Text)
      → G (update_exception id expected target summary failure_reason)
      → Makes G (transition id expected target summary failure_reason)
  unfolding transition
  transition-Makes id expected target summary failure_reason g =
      search (makes_rules, record_of-Makes)
