-- ===== src/Routes/Documents/Errors.antt =====
-- The errors that leave the route of a new document.
use ai_system_engineering_cu.Base.{ℕ, ◌≡◌, ◌⊎◌, inl, inr, refl, Bool, List, Text}
use ai_system_engineering_cu.Effects.{Outcome, returned, raised}
use ai_system_engineering_cu.Effects.Failure.{
  FailsAs, FailsAs-pure, FailsAs-raise, OfRaised, FailsAs-try,
}
use ai_system_engineering_cu.Domain.Documents.{DocumentRecord, ChunkRecord}
use ai_system_engineering_cu.Documents.Calls.{Call, Answer, Error, interface_error}
use ai_system_engineering_cu.Documents.Repository.Errors.{IsValueError}
use ai_system_engineering_cu.Documents.Service.{create_document}
use ai_system_engineering_cu.Documents.Service.Errors.{IsCreationError, create_document-FailsAs}
use ai_system_engineering_cu.Routes.Http.{answered}
use ai_system_engineering_cu.Routes.Documents.{create_status, created_response, post_document}

-- A ValueError, or an InterfaceError of the driver.
abbrev pub LeavesCreation : Error → Type 0
LeavesCreation e = IsValueError e ⊎ (e ≡ interface_error)

answered-FailsAs :
    (document : DocumentRecord) (o : Outcome Error (List ChunkRecord))
    → OfRaised IsCreationError o
    → FailsAs {C = Call} {Answer = Answer} LeavesCreation
        (answered create_status (created_response document) o)
unfolding create_status
answered-FailsAs document (returned chunks) h = FailsAs-pure _ _
answered-FailsAs document (raised e) (inl (inl h)) = rw h (FailsAs-pure _ _)
answered-FailsAs document (raised e) (inl (inr h)) = rw h (FailsAs-raise _ _ (inr refl))
answered-FailsAs document (raised e) (inr (inl h)) = rw h (FailsAs-pure _ _)
answered-FailsAs document (raised e) (inr (inr (inl h))) = rw h (FailsAs-raise _ _ (inl (inl refl)))
answered-FailsAs document (raised e) (inr (inr (inr h))) = rw h (FailsAs-raise _ _ (inl (inr refl)))

-- Whatever the database and the pool answer: only a ValueError leaves the route of a new document,
-- or an InterfaceError of the driver, which no except clause on the way names.
pub post_document-FailsAs :
    (casefold : Text → Text) (blake2b : Text → ℕ → ℕ) (available : Bool) (document : DocumentRecord)
    → FailsAs LeavesCreation (post_document casefold blake2b available document)
unfolding post_document
post_document-FailsAs casefold blake2b available document =
    FailsAs-try IsCreationError LeavesCreation (answered create_status (created_response document))
      (answered-FailsAs document) (create_document casefold blake2b available document)
      (create_document-FailsAs casefold blake2b available document)
