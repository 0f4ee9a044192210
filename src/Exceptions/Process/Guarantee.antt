-- ===== src/Exceptions/Process/Guarantee.antt =====
-- `process` makes a worker's calls only.
use ai_system_engineering_cu.Base.{ℕ, Option, none, some}
use ai_system_engineering_cu.Effects.{Outcome, returned, raised}
use ai_system_engineering_cu.Effects.Guarantee.{makes_rules}
use ai_system_engineering_cu.Domain.Contracts.{ExceptionJob, ExceptionRecord, ModelSummary}
use ai_system_engineering_cu.Exceptions.Calls.{Error}
use ai_system_engineering_cu.Exceptions.Permitted.{begin, requeue, complete, exhaust}
use ai_system_engineering_cu.Exceptions.Repository.Guarantee.{Works, get-Makes, transition-Makes}
use ai_system_engineering_cu.Exceptions.Process.{
  interrupted, after_summarize, attempt_summary, by_record, process,
}

module _ (maximum_attempts : ℕ) where
  interrupted-Works : (job : ExceptionJob) (n : ℕ) → Works (interrupted maximum_attempts job n)
  unfolding interrupted
  interrupted-Works job n = search (makes_rules, transition-Makes, exhaust)

  after_summarize-Works :
      (job : ExceptionJob) (n : ℕ) (o : Outcome Error ModelSummary)
      → Works (after_summarize maximum_attempts job n o)
  unfolding after_summarize
  after_summarize-Works job n (returned summary) = search (makes_rules, transition-Makes, complete)
  after_summarize-Works job n (raised error) =
      search (makes_rules, transition-Makes, exhaust, requeue)

  attempt_summary-Works :
      (job : ExceptionJob) (n : ℕ) → Works (attempt_summary maximum_attempts job n)
  unfolding attempt_summary
  attempt_summary-Works job n = search (makes_rules, transition-Makes, begin, after_summarize-Works)

  by_record-Works :
      (job : ExceptionJob) (n : ℕ) (found : Option ExceptionRecord)
      → Works (by_record maximum_attempts job n found)
  unfolding by_record
  by_record-Works job n none = search makes_rules
  by_record-Works job n (some r) = search (makes_rules, interrupted-Works, attempt_summary-Works)

  pub process-Works : (job : ExceptionJob) (n : ℕ) → Works (process maximum_attempts job n)
  unfolding process
  process-Works job n = search (makes_rules, get-Makes, by_record-Works)
