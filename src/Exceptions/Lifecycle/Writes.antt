-- ===== src/Exceptions/Lifecycle/Writes.antt =====
-- What one permitted call does to the table.
use ai_system_engineering_cu.Base.{
  ℕ, ◌≡◌, refl, ◌⊎◌, inl, inr, true, Option, none, some, List, [], ◌∷◌, Text, lookup, put, text_eq,
  Bool-cases, arith, subst, sym, ap,
}
use ai_system_engineering_cu.Effects.{reply, fault}
use ai_system_engineering_cu.Domain.Contracts.{
  ExceptionState, received, queued, processing, completed, failed, ExceptionRecord, ExceptionJob,
  state_beq_iff,
}
use ai_system_engineering_cu.Exceptions.Calls.{
  Call, Answer, Shared, select_exception, insert_exception, update_exception, clock, xadd, xack,
  xautoclaim, xpending_range, xreadgroup, xlen, xpending, sleep, summarize, Performs, inserted_row,
  updated_row, write_row, any_state, transitioned,
}
use ai_system_engineering_cu.Exceptions.Permitted.{
  IsTransition, enqueue, begin, requeue, complete, reject, exhaust, IsPermitted, IsTerminal,
  IsConsistent, Later, HasOutcome,
}

-- What a row that is written owes to the row that was there.
abbrev pub MayReplace : Text → Option ExceptionRecord → ExceptionRecord → Type 0
MayReplace id none new = IsConsistent id new
MayReplace id (some old) new = Later old new × (IsConsistent id old → IsConsistent id new)

-- A step of the table: nothing, or one row written under its key.
abbrev pub TableStep : Shared → Shared → Type 0
TableStep s s' =
    (s'.exceptions ≡ s.exceptions)
    ⊎ ((id : Text) × (new : ExceptionRecord) × (s'.exceptions ≡ put id new s.exceptions)
        × MayReplace id (lookup id s.exceptions) new)

any_state-one : (a b : ExceptionState) → any_state a (b ∷ []) ≡ true → a ≡ b
unfolding any_state
any_state-one a b h = ground (arith, state_beq_iff a b)

-- A row that is not terminal may be followed by any row that keeps its identity.
transitioned-Later :
    (now : ℕ) (r : ExceptionRecord) (from target : ExceptionState)
    (summary failure_reason : Option Text)
    → ¬ IsTerminal from
    → ¬ (target ≡ received)
    → r.state ≡ from
    → Later r (transitioned now target summary failure_reason r)
unfolding transitioned
transitioned-Later now r from target summary failure_reason active moved e =
    (refl, refl, refl, λ t. absurd (active (subst IsTerminal e t)), λ t. absurd (moved t))

-- The row that a transition writes may replace the one it found.
transitioned-MayReplace :
    (now : ℕ) (id : Text) (r : ExceptionRecord) {expected : List ExceptionState}
    {target : ExceptionState} {summary failure_reason : Option Text}
    → IsTransition expected target summary failure_reason
    → any_state r.state expected ≡ true
    → MayReplace id (some r) (transitioned now target summary failure_reason r)
unfolding transitioned
transitioned-MayReplace now id r enqueue h =
    let e = any_state-one r.state received h in
    (
      transitioned-Later now r received queued none none (λ t. t) (λ t. cc) e,
      λ c. let o = subst (λ x. HasOutcome x r.summary r.failure_reason) e c.1 in (c.0, (o.0, refl)),
    )
transitioned-MayReplace now id r begin h =
    let e = any_state-one r.state queued h in
    (
      transitioned-Later now r queued processing none none (λ t. t) (λ t. cc) e,
      λ c. let o = subst (λ x. HasOutcome x r.summary r.failure_reason) e c.1 in (c.0, (o.0, refl)),
    )
transitioned-MayReplace now id r requeue h =
    let e = any_state-one r.state processing h in
    (
      transitioned-Later now r processing queued none none (λ t. t) (λ t. cc) e,
      λ c. let o = subst (λ x. HasOutcome x r.summary r.failure_reason) e c.1 in (c.0, (o.0, refl)),
    )
transitioned-MayReplace now id r (complete summary) h =
    let e = any_state-one r.state processing h in
    (
      transitioned-Later now r processing completed (some summary) none (λ t. t) (λ t. cc) e,
      λ c. (c.0, ((summary, refl), refl)),
    )
transitioned-MayReplace now id r (reject reason) h =
    let e = any_state-one r.state queued h in
    (
      transitioned-Later now r queued failed none (some reason) (λ t. t) (λ t. cc) e,
      λ c.
          let o = subst (λ x. HasOutcome x r.summary r.failure_reason) e c.1 in
          (c.0, (o.0, (reason, refl))),
    )
transitioned-MayReplace now id r (exhaust reason) h =
    let e = any_state-one r.state processing h in
    (
      transitioned-Later now r processing failed none (some reason) (λ t. t) (λ t. cc) e,
      λ c.
          let o = subst (λ x. HasOutcome x r.summary r.failure_reason) e c.1 in
          (c.0, (o.0, (reason, refl))),
    )

-- A permitted UPDATE steps the table.
update-TableStep :
    (now : ℕ) (id : Text) (s : Shared) {expected : List ExceptionState} {target : ExceptionState}
    {summary failure_reason : Option Text}
    → IsTransition expected target summary failure_reason
    → (row : Option ExceptionRecord) → lookup id s.exceptions ≡ row
    → TableStep s (write_row id (updated_row now expected target summary failure_reason row) s)
unfolding updated_row write_row
update-TableStep now id s t none found = inl refl
update-TableStep now id s {expected} {target} {summary} {failure_reason} t (some r) found =
    elim (Bool-cases (any_state r.state expected)) [
      | inl allowed ↦ rw allowed (
          inr (
            id,
            transitioned now target summary failure_reason r,
            refl,
            rw found (transitioned-MayReplace now id r t allowed),
          ))
      | inr refused ↦ rw refused (inl refl)
    ]

-- A permitted INSERT steps the table.
insert-TableStep :
    (r : ExceptionRecord) (s : Shared)
    → IsPermitted (insert_exception r)
    → (row : Option ExceptionRecord) → lookup r.exception_id s.exceptions ≡ row
    → TableStep s (write_row r.exception_id (inserted_row r row) s)
unfolding write_row
insert-TableStep r s p (some existing) found = inl refl
insert-TableStep r s p none found = inr (
  r.exception_id,
  r,
  refl,
  rw found (refl, subst (λ x. HasOutcome x r.summary r.failure_reason) (sym p.0) (p.1, p.2)),
)

TableStep-eq : (s s' s'' : Shared) → s' ≡ s'' → TableStep s s'' → TableStep s s'
TableStep-eq s s' s'' e t = rw e t

same_rows : {s s' : Shared} → s' ≡ s → TableStep s s'
same_rows h = inl (ap (λ (t : Shared). t.exceptions) h)

same_published :
    (s : Shared) {s' : Shared} (published : List ExceptionJob)
    → s' ≡ record s { published = published }
    → TableStep s s'
same_published s published h = inl (ap (λ (t : Shared). t.exceptions) h)

same_acknowledged :
    (s : Shared) {s' : Shared} (acknowledged : List Text)
    → s' ≡ record s { acknowledged = acknowledged }
    → TableStep s s'
same_acknowledged s acknowledged h = inl (ap (λ (t : Shared). t.exceptions) h)

-- Every permitted call steps the table, whatever it answers.
pub Performs-TableStep :
    (c : Call) (s : Shared) (a : Answer c) (s' : Shared)
    → IsPermitted c
    → Performs c s a s'
    → TableStep s s'
Performs-TableStep (select_exception id) s (reply row) s' p h = same_rows h.1
Performs-TableStep (select_exception id) s fault s' p (inl h) = same_rows h
Performs-TableStep (select_exception id) s fault s' p (inr h) = same_rows h
Performs-TableStep (insert_exception r) s (reply row) s' p h =
    TableStep-eq s s' _ h.1 (insert-TableStep r s p (lookup r.exception_id s.exceptions) refl)
Performs-TableStep (insert_exception r) s fault s' p (inl h) = same_rows h
Performs-TableStep (insert_exception r) s fault s' p (inr h) =
    TableStep-eq s s' _ h (insert-TableStep r s p (lookup r.exception_id s.exceptions) refl)
Performs-TableStep (update_exception id expected target summary failure_reason) s (reply row) s' p
      (now, h) =
    TableStep-eq s s' _ h.1 (update-TableStep now id s p (lookup id s.exceptions) refl)
Performs-TableStep (update_exception id expected target summary failure_reason) s fault s' p
      (now, inl h) =
    same_rows h
Performs-TableStep (update_exception id expected target summary failure_reason) s fault s' p
      (now, inr h) =
    TableStep-eq s s' _ h (update-TableStep now id s p (lookup id s.exceptions) refl)
Performs-TableStep clock s a s' p h = same_rows h
Performs-TableStep (xadd job) s (reply id) s' p h = same_published s _ h
Performs-TableStep (xadd job) s fault s' p (inl h) = same_rows h
Performs-TableStep (xadd job) s fault s' p (inr h) = same_published s _ h
Performs-TableStep (xack id) s (reply u) s' p h = same_acknowledged s _ h
Performs-TableStep (xack id) s fault s' p (inl h) = same_rows h
Performs-TableStep (xack id) s fault s' p (inr h) = same_acknowledged s _ h
Performs-TableStep (xautoclaim n) s a s' p h = same_rows h
Performs-TableStep (xpending_range id) s a s' p h = same_rows h
Performs-TableStep (xreadgroup n) s a s' p h = same_rows h
Performs-TableStep xlen s a s' p h = same_rows h
Performs-TableStep xpending s a s' p h = same_rows h
Performs-TableStep sleep s a s' p h = same_rows h
Performs-TableStep (summarize r) s a s' p h = same_rows h
