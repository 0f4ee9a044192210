-- ===== src/Exceptions/Lifecycle/Rows.antt =====
-- The rows of the table under permitted calls: consistent, and never lost.
use ai_system_engineering_cu.Base.{
  ◌≡◌, refl, ◌∙◌, sym, ap, subst, inl, inr, Option, none, some, Text, lookup, put, lookup-put, ◌==◌,
  text_eq, text_beq_iff, Bool-cases, if◌then◌else◌, some_eq,
}
use ai_system_engineering_cu.Domain.Contracts.{ExceptionRecord}
use ai_system_engineering_cu.Exceptions.Calls.{Shared}
use ai_system_engineering_cu.Exceptions.Permitted.{IsConsistent, Later, Later-refl, Later-trans}
use ai_system_engineering_cu.Exceptions.Lifecycle.Writes.{MayReplace, TableStep}

-- Every row is consistent and stands under its own identifier.
pub record IsValid (s : Shared) : Type 0 where
  pub row : (id : Text) (r : ExceptionRecord) → lookup id s.exceptions ≡ some r → IsConsistent id r

-- The row under `id` is still there, as a later state of itself.
abbrev pub Keeps : ExceptionRecord → Option ExceptionRecord → Type 0
Keeps r none = ⊥
Keeps r (some r') = Later r r'

-- No row of `s` is lost in `s'`.
pub record Extends (s s' : Shared) : Type 0 where
  pub row :
      (id : Text) (r : ExceptionRecord)
      → lookup id s.exceptions ≡ some r
      → Keeps r (lookup id s'.exceptions)

-- What replaces the row found under its key is consistent if that was.
MayReplace-IsConsistent :
    (id : Text) (new : ExceptionRecord) (found : Option ExceptionRecord)
    → MayReplace id found new
    → ((old : ExceptionRecord) → found ≡ some old → IsConsistent id old)
    → IsConsistent id new
MayReplace-IsConsistent id new none m h = m
MayReplace-IsConsistent id new (some old) m h = m.1 (h old refl)

MayReplace-Later :
    (id : Text) (new old : ExceptionRecord) (found : Option ExceptionRecord)
    → MayReplace id found new
    → found ≡ some old
    → Later old new
MayReplace-Later id new old none m e = cc
MayReplace-Later id new old (some r) m e = subst (λ x. Later x new) (some_eq e) m.0

-- One write keeps the rows consistent.
write-IsValid :
    (s s' : Shared) (id : Text) (new : ExceptionRecord)
    → s'.exceptions ≡ put id new s.exceptions
    → MayReplace id (lookup id s.exceptions) new
    → IsValid s
    → IsValid s'
write-IsValid s s' id new e m v = record {
  row = λ j r found.
      let looked : (if id == j then some new else lookup j s.exceptions) ≡ some r =
        sym (lookup-put id j new s.exceptions) ∙ sym (ap (lookup j) e) ∙ found in
      elim (Bool-cases (id == j)) [
        | inl same ↦
            let new_is : some new ≡ some r = rw same at looked in
            let here : id ≡ j = (text_beq_iff id j).0 same in
            subst (λ x. IsConsistent x r) here
              (subst (IsConsistent id) (some_eq new_is)
                (MayReplace-IsConsistent id new (lookup id s.exceptions) m (v.row id)))
        | inr other ↦ v.row j r (rw other at looked)
      ];
}

write-Extends :
    (s s' : Shared) (id : Text) (new : ExceptionRecord)
    → s'.exceptions ≡ put id new s.exceptions
    → MayReplace id (lookup id s.exceptions) new
    → Extends s s'
write-Extends s s' id new e m = record {
  row = λ j r found.
      let looked : lookup j s'.exceptions ≡ (if id == j then some new else lookup j s.exceptions) =
        ap (lookup j) e ∙ lookup-put id j new s.exceptions in
      elim (Bool-cases (id == j)) [
        | inl same ↦
            let at_new : lookup j s'.exceptions ≡ some new = rw same at looked in
            let here : id ≡ j = (text_beq_iff id j).0 same in
            rw at_new (MayReplace-Later id new r (lookup id s.exceptions) m (rw here found))
        | inr other ↦
            let at_old : lookup j s'.exceptions ≡ lookup j s.exceptions = rw other at looked in
            rw (at_old, found) (Later-refl r)
      ];
}

-- A step of the table keeps the rows consistent, and loses none.
pub TableStep-IsValid : (s s' : Shared) → TableStep s s' → IsValid s → IsValid s'
TableStep-IsValid s s' (inl e) v = record {
  row = λ j r found. v.row j r (sym (ap (lookup j) e) ∙ found);
}
TableStep-IsValid s s' (inr (id, new, e, m)) v = write-IsValid s s' id new e m v

pub TableStep-Extends : (s s' : Shared) → TableStep s s' → Extends s s'
TableStep-Extends s s' (inl e) = record {
  row = λ j r found. rw (ap (lookup j) e, found) (Later-refl r);
}
TableStep-Extends s s' (inr (id, new, e, m)) = write-Extends s s' id new e m

Keeps-trans :
    (r : ExceptionRecord) (mid late : Option ExceptionRecord)
    → Keeps r mid
    → ((r' : ExceptionRecord) → mid ≡ some r' → Keeps r' late)
    → Keeps r late
Keeps-trans r none late h k = absurd h
Keeps-trans r (some r') none h k = k r' refl
Keeps-trans r (some r') (some r'') h k = Later-trans r r' r'' h (k r' refl)

pub Extends-trans : (s s' s'' : Shared) → Extends s s' → Extends s' s'' → Extends s s''
Extends-trans s s' s'' a b = record {
  row = λ id r found.
      Keeps-trans r (lookup id s'.exceptions) (lookup id s''.exceptions) (a.row id r found)
        (b.row id);
}

pub Extends-refl : (s : Shared) → Extends s s
Extends-refl s = record { row = λ id r found. rw found (Later-refl r) }
