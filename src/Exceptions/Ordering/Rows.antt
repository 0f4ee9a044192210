-- ===== src/Exceptions/Ordering/Rows.antt =====
-- What a program knows of a row after a statement, while others go on.
use ai_system_engineering_cu.Base.{
  ℕ, ◌≡◌, refl, ◌∙◌, sym, ap, subst, Option, none, some, List, Text, lookup, lookup-put_self,
  text_eq, Bool-cases, inl, inr, some_eq,
}
use ai_system_engineering_cu.Effects.{Reply, reply, fault, ◌>>=◌, reply_or, or_raise}
use ai_system_engineering_cu.Effects.Interference.{
  Ensures, Ensures-call, Ensures-pure, Ensures-raise, Ensures-if, Ensures-bind,
}
use ai_system_engineering_cu.Domain.Contracts.{ExceptionState, ExceptionRecord}
use ai_system_engineering_cu.Exceptions.Calls.{
  Call, Action, Shared, Performs, driver, state_conflict, update_exception, select_exception,
  updated_row, write_row, transitioned, any_state,
}
use ai_system_engineering_cu.Exceptions.Repository.{
  reads_back, record_of, found_record, get, transition,
}
use ai_system_engineering_cu.Exceptions.Lifecycle.Rows.{Extends, Keeps}
use ai_system_engineering_cu.Exceptions.Permitted.{IsTerminal}

-- A program among the permitted ones: they lose no row.
abbrev pub Among :
    {A : Type 0} → (Call → Shared → Type 0) → (A → Shared → Type 0) → Action A → Shared → Type 0
Among Guard Q m s = Ensures Performs Extends Guard Q m s

-- The row `r` stands under `id`.
abbrev pub Stands : Text → ExceptionRecord → Shared → Type 0
Stands id r s = lookup id s.exceptions ≡ some r

-- An UPDATE that returned a row wrote it, in its target state.
updated_row-Stands :
    (now : ℕ) (id : Text) (expected : List ExceptionState) (target : ExceptionState)
    (summary failure_reason : Option Text) (s : Shared) (found : Option ExceptionRecord)
    (r : ExceptionRecord)
    → some r ≡ updated_row now expected target summary failure_reason found
    → Stands id r (write_row id (updated_row now expected target summary failure_reason found) s)
      × (r.state ≡ target)
unfolding updated_row write_row transitioned
updated_row-Stands now id expected target summary failure_reason s none r e = cc
updated_row-Stands now id expected target summary failure_reason s (some old) r e =
    elim (Bool-cases (any_state old.state expected)) [
      | inl allowed ↦
          let same : some r ≡ some (transitioned now target summary failure_reason old) =
            rw allowed at e in
          let is : r ≡ transitioned now target summary failure_reason old = some_eq same in
          rw allowed (
            rw is (
                lookup-put_self id (transitioned now target summary failure_reason old)
                  s.exceptions),
            ap (λ (x : ExceptionRecord). x.state) is,
          )
      | inr refused ↦ absurd (none_ne (rw refused at e))
    ]
  where
    none_ne : some r ≡ none → ⊥
    none_ne h = cc

module _ (Guard : Call → Shared → Type 0) where
  record_of-Among :
      (Q : ExceptionRecord → Shared → Type 0) (row : ExceptionRecord) (s : Shared)
      → Q row s
      → Among Guard Q (record_of row) s
  unfolding record_of
  record_of-Among Q row s h =
      Ensures-if _ _ _ _ (reads_back row.reading) _ _ s (Ensures-pure _ _ _ _ row s h)
        (Ensures-raise _ _ _ _ _ s)

  found_record-Among :
      (Q : Option ExceptionRecord → Shared → Type 0) (row : Option ExceptionRecord) (s : Shared)
      → Q row s
      → Among Guard Q (found_record row) s
  unfolding found_record
  found_record-Among Q none s h = Ensures-pure _ _ _ _ none s h
  found_record-Among Q (some row) s h =
      Ensures-bind _ _ _ _ (λ r t. Q (some r) t) (record_of row) _ s
        (record_of-Among (λ r t. Q (some r) t) row s h) (λ r t k. Ensures-pure _ _ _ _ (some r) t k)

  -- After `transition` returns, the row that it returned stands, in its target state.
  pub transition-Among :
      (id : Text) (expected : List ExceptionState) (target : ExceptionState)
      (summary failure_reason : Option Text) (s : Shared)
      → ((t : Shared) → Guard (update_exception id expected target summary failure_reason) t)
      → Among Guard
          (λ r t. Stands id r t × (r.state ≡ target))
          (transition id expected target summary failure_reason)
          s
  unfolding transition
  transition-Among id expected target summary failure_reason s g =
      Ensures-call _ _ _ _ (update_exception id expected target summary failure_reason) _ s
        (λ t _. g t) (λ t _. after t)
    where
      after :
          (t : Shared) (a : Reply (Option ExceptionRecord)) (t' : Shared)
          → Performs (update_exception id expected target summary failure_reason) t a t'
          → Among Guard
              (λ r u. Stands id r u × (r.state ≡ target))
              (reply_or driver a >>= (λ row. or_raise (state_conflict id) row >>= record_of))
              t'
      after t fault t' p = Ensures-raise _ _ _ _ _ _
      after t (reply none) t' p = Ensures-raise _ _ _ _ _ _
      after t (reply (some r)) t' (now, (e, done)) = record_of-Among _ r t' (
          rw done (
            updated_row-Stands now id expected target summary failure_reason t
              (lookup id t.exceptions) r e))

  -- After `get` returns, what it returned stands, and no row has been lost.
  pub get-Among :
      (id : Text) (s : Shared)
      → ((t : Shared) → Guard (select_exception id) t)
      → Among Guard (λ found t. (lookup id t.exceptions ≡ found) × Extends s t) (get id) s
  unfolding get
  get-Among id s g = Ensures-call _ _ _ _ (select_exception id) _ s (λ t _. g t) after
    where
      after :
          (t : Shared)
          → Extends s t
          → (a : Reply (Option ExceptionRecord)) (t' : Shared)
          → Performs (select_exception id) t a t'
          → Among Guard
              (λ found u. (lookup id u.exceptions ≡ found) × Extends s u)
              (reply_or driver a >>= found_record)
              t'
      after t x fault t' p = Ensures-raise _ _ _ _ _ _
      after t x (reply found) t' (e, same) =
          found_record-Among _ found t'
            (subst (λ u. (lookup id u.exceptions ≡ found) × Extends s u) (sym same) (sym e, x))

-- The row under `id` is COMPLETED or FAILED.
abbrev pub IsDone : Text → Shared → Type 0
IsDone id s = (r : ExceptionRecord) × Stands id r s × IsTerminal r.state

-- The others leave a terminal row as it is.
pub IsDone-Extends : (id : Text) (s t : Shared) → IsDone id s → Extends s t → IsDone id t
IsDone-Extends id s t (r, found, terminal) x =
    later (lookup id t.exceptions) refl (x.row id r found)
  where
    later :
        (late : Option ExceptionRecord) → lookup id t.exceptions ≡ late → Keeps r late → IsDone id t
    later none e k = absurd k
    later (some r') e k = (r, e ∙ ap some (k.3 terminal), terminal)
