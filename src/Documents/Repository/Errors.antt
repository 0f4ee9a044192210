-- ===== src/Documents/Repository/Errors.antt =====
-- The errors that leave the repository.
use ai_system_engineering_cu.Base.{
  ◌≡◌, ◌⊎◌, inl, inr, refl, Bool-cases, Option, none, some, Text, List, [], ◌∷◌,
}
use ai_system_engineering_cu.Effects.{pure, raise, Outcome, returned, raised, call}
use ai_system_engineering_cu.Effects.Failure.{
  FailsAs, FailsAs-pure, FailsAs-raise, FailsAs-if, FailsAs-call, FailsAs-bind, OfRaised,
  FailsAs-try,
}
use ai_system_engineering_cu.Domain.Documents.{DocumentRecord, ChunkRecord, is_document, Provenance}
use ai_system_engineering_cu.Domain.Access.{
  AccessTier, AccessLabel, AuthorizationContext, tier_value, access_tier_of,
}
use ai_system_engineering_cu.Documents.Calls.{
  value_error, validation_error, DocumentRow, select_document, Call, Answer, Error, Got, got,
  rejected, unreachable, unusable, acquire, release, begin, commit, rollback, execute,
  repository_error, postgres_error, os_error, interface_error,
}
use ai_system_engineering_cu.Documents.Repository.{
  got_or_raise, as_save_error, has_foreign, insert_chunks, inserts, after_inserts, transaction,
  checked_document, with_provenance, with_label, with_tier, document_of, as_read_error,
  after_select, get_document, after_use, on_connection, after_transaction, save_document,
}

-- An error of the driver.
abbrev pub IsDriver : Error → Type 0
IsDriver e = (e ≡ postgres_error) ⊎ (e ≡ os_error) ⊎ (e ≡ interface_error)

-- The error of the port, or an InterfaceError of the driver.
abbrev pub IsOwn : Error → Type 0
IsOwn e = (e ≡ repository_error) ⊎ (e ≡ interface_error)

pub got_or_raise-FailsAs : {A : Type 0} (a : Got A) → FailsAs IsDriver (got_or_raise a)
got_or_raise-FailsAs (got a) = FailsAs-pure _ a
got_or_raise-FailsAs rejected = FailsAs-raise _ _ (inl refl)
got_or_raise-FailsAs unreachable = FailsAs-raise _ _ (inr (inl refl))
got_or_raise-FailsAs unusable = FailsAs-raise _ _ (inr (inr refl))

insert_chunks-FailsAs : (chunks : List ChunkRecord) → FailsAs IsDriver (insert_chunks chunks)
unfolding insert_chunks
insert_chunks-FailsAs [] = FailsAs-pure _ tt
insert_chunks-FailsAs (chunk ∷ chunks) =
    FailsAs-bind _ (call (execute _) got_or_raise) _
      (FailsAs-call _ (execute _) got_or_raise got_or_raise-FailsAs)
      (λ done. insert_chunks-FailsAs chunks)

inserts-FailsAs :
    (document : DocumentRecord) (chunks : List ChunkRecord)
    → FailsAs IsDriver (inserts document chunks)
unfolding inserts
inserts-FailsAs document chunks =
    FailsAs-bind _ (call (execute _) got_or_raise) _
      (FailsAs-call _ (execute _) got_or_raise got_or_raise-FailsAs)
      (λ done. insert_chunks-FailsAs chunks)

after_inserts-FailsAs :
    (o : Outcome Error Unit) → OfRaised IsDriver o → FailsAs IsDriver (after_inserts o)
unfolding after_inserts
after_inserts-FailsAs (returned done) h = FailsAs-call _ commit got_or_raise got_or_raise-FailsAs
after_inserts-FailsAs (raised e) h =
    FailsAs-bind _ (call rollback got_or_raise) _
      (FailsAs-call _ rollback got_or_raise got_or_raise-FailsAs) (λ done. FailsAs-raise _ e h)

transaction-FailsAs :
    (document : DocumentRecord) (chunks : List ChunkRecord)
    → FailsAs IsDriver (transaction document chunks)
unfolding transaction
transaction-FailsAs document chunks =
    FailsAs-bind _ (call begin got_or_raise) _
      (FailsAs-call _ begin got_or_raise got_or_raise-FailsAs)
      (λ done.
        FailsAs-try IsDriver IsDriver after_inserts after_inserts-FailsAs (inserts document chunks)
          (inserts-FailsAs document chunks))

after_use-FailsAs : (o : Outcome Error Unit) → OfRaised IsDriver o → FailsAs IsDriver (after_use o)
unfolding after_use
after_use-FailsAs (returned done) h = FailsAs-call _ release got_or_raise got_or_raise-FailsAs
after_use-FailsAs (raised e) h =
    FailsAs-bind _ (call release got_or_raise) _
      (FailsAs-call _ release got_or_raise got_or_raise-FailsAs) (λ done. FailsAs-raise _ e h)

on_connection-FailsAs :
    (document : DocumentRecord) (chunks : List ChunkRecord)
    → FailsAs IsDriver (on_connection document chunks)
unfolding on_connection
on_connection-FailsAs document chunks =
    FailsAs-bind _ (call acquire got_or_raise) _
      (FailsAs-call _ acquire got_or_raise got_or_raise-FailsAs)
      (λ done.
        FailsAs-try IsDriver IsDriver after_use after_use-FailsAs (transaction document chunks)
          (transaction-FailsAs document chunks))

as_save_error-IsOwn : (e : Error) → IsDriver e → IsOwn (as_save_error e)
unfolding as_save_error
as_save_error-IsOwn e (inl h) = rw h (inl refl)
as_save_error-IsOwn e (inr (inl h)) = rw h (inl refl)
as_save_error-IsOwn e (inr (inr h)) = rw h (inr refl)

after_transaction-FailsAs :
    (o : Outcome Error Unit) → OfRaised IsDriver o → FailsAs IsOwn (after_transaction o)
unfolding after_transaction
after_transaction-FailsAs (returned done) h = FailsAs-pure _ _
after_transaction-FailsAs (raised e) h = FailsAs-raise _ _ (as_save_error-IsOwn e h)

-- Whatever the database and the pool answer: only a RepositoryError leaves save_document, or an
-- InterfaceError of the driver, which its except clauses do not name.
pub save_document-FailsAs :
    (document : DocumentRecord) (chunks : List ChunkRecord)
    → FailsAs IsOwn (save_document document chunks)
unfolding save_document
save_document-FailsAs document chunks =
    FailsAs-if _ (has_foreign document.document_id chunks) _ _ (λ h. FailsAs-raise _ _ (inl refl))
      (λ h.
        FailsAs-try IsDriver IsOwn after_transaction after_transaction-FailsAs
          (on_connection document chunks) (on_connection-FailsAs document chunks))

-- A ValueError, or the ValidationError that is one.
abbrev pub IsValueError : Error → Type 0
IsValueError e = (e ≡ value_error) ⊎ (e ≡ validation_error)

-- An error that no except clause of a read names.
abbrev pub IsUncaught : Error → Type 0
IsUncaught e = (e ≡ os_error) ⊎ (e ≡ interface_error) ⊎ IsValueError e

abbrev pub IsReadError : Error → Type 0
IsReadError e = (e ≡ repository_error) ⊎ IsUncaught e

abbrev OnlyValueErrors : {A : Type 0} → Outcome Error A → Type 0
OnlyValueErrors o = OfRaised IsValueError o

checked_document-Errors : (document : DocumentRecord) → OnlyValueErrors (checked_document document)
unfolding checked_document
checked_document-Errors document = elim (Bool-cases (is_document document)) [
  | inl valid ↦ rw valid tt
  | inr other ↦ rw other (inr refl)
]

with_provenance-Errors :
    (row : DocumentRow) (access : AccessLabel) (o : Option Provenance)
    → OnlyValueErrors (with_provenance row access o)
unfolding with_provenance
with_provenance-Errors row access none = inr refl
with_provenance-Errors row access (some provenance) = checked_document-Errors _

with_label-Errors :
    (row : DocumentRow) (o : Option AccessLabel) → OnlyValueErrors (with_label row o)
unfolding with_label
with_label-Errors row none = inr refl
with_label-Errors row (some access) = with_provenance-Errors row access _

with_tier-Errors : (row : DocumentRow) (o : Option AccessTier) → OnlyValueErrors (with_tier row o)
unfolding with_tier
with_tier-Errors row none = inl refl
with_tier-Errors row (some tier) = with_label-Errors row _

as_read_error-IsReadError : (e : Error) → IsDriver e → IsReadError (as_read_error e)
unfolding as_read_error
as_read_error-IsReadError e (inl h) = rw h (inl refl)
as_read_error-IsReadError e (inr (inl h)) = rw h (inr (inl refl))
as_read_error-IsReadError e (inr (inr h)) = rw h (inr (inr (inl refl)))

read-FailsAs :
    (o : Outcome Error DocumentRecord)
    → OnlyValueErrors o
    → FailsAs {C = Call} {Answer = Answer} IsReadError
        (elim o [ returned d ↦ pure (some d) | raised e ↦ raise e ])
read-FailsAs (returned document) h = FailsAs-pure _ _
read-FailsAs (raised e) h = FailsAs-raise _ e (inr (inr (inr h)))

after_select-FailsAs :
    (o : Outcome Error (Option DocumentRow))
    → OfRaised IsDriver o
    → FailsAs IsReadError (after_select o)
unfolding after_select document_of
after_select-FailsAs (raised e) h = FailsAs-raise _ _ (as_read_error-IsReadError e h)
after_select-FailsAs (returned none) h = FailsAs-pure _ none
after_select-FailsAs (returned (some row)) h =
    read-FailsAs (document_of row) (with_tier-Errors row (access_tier_of row.access_tier))

-- A RepositoryError, an OSError or an InterfaceError of the driver, or a ValueError of a row.
pub get_document-FailsAs :
    (document_id : Text) (scope : AuthorizationContext)
    → FailsAs IsReadError (get_document document_id scope)
unfolding get_document
get_document-FailsAs document_id scope =
    FailsAs-try IsDriver IsReadError after_select after_select-FailsAs
      (call (select_document document_id scope.tenant_id (tier_value scope.clearance)) got_or_raise)
      (FailsAs-call _ (select_document _ _ _) got_or_raise got_or_raise-FailsAs)
