-- ===== src/Routes/Documents/Reads.antt =====
-- What the route of one document reports.
use ai_system_engineering_cu.Base.{
  ◌≡◌, ◌⊎◌, inl, inr, refl, arith, Bool, true, false, Option, none, some, Text, [], ◌∷◌,
}
use ai_system_engineering_cu.Effects.{Outcome, returned, raised, attempt, ◌>>=◌}
use ai_system_engineering_cu.Effects.Interference.{
  Ensures, OfReturned, Ensures-pure, Ensures-raise, Ensures-bind, Ensures-attempt,
}
use ai_system_engineering_cu.Effects.Failure.{
  FailsAs, FailsAs-pure, FailsAs-raise, FailsAs-try, OfRaised,
}
use ai_system_engineering_cu.Domain.Validation.{is_slug, has_length}
use ai_system_engineering_cu.Domain.Access.{AccessTier, AuthorizationContext, authorization_context}
use ai_system_engineering_cu.Domain.Documents.{DocumentRecord}
use ai_system_engineering_cu.Documents.Calls.{
  Call, Answer, Action, Error, Shared, Performs, repository_error, validation_error, value_error,
  postgres_error, os_error, interface_error, documents_unavailable,
}
use ai_system_engineering_cu.Documents.Repository.Scope.{ReadsRow, get_document-ReadsRow}
use ai_system_engineering_cu.Documents.Repository.Errors.{IsUncaught}
use ai_system_engineering_cu.Documents.Service.Errors.{IsServiceReadError, read_document-FailsAs}
use ai_system_engineering_cu.Documents.Service.{repository, read_document}
use ai_system_engineering_cu.Routes.Http.{Response, responded, refused, answered}
use ai_system_engineering_cu.Routes.Documents.{
  read_status, scope_of, found_or_404, get_one_document,
}

has_length-is_slug : (s : Text) → is_slug 80 s ≡ true → has_length 80 s ≡ true
unfolding is_slug has_length
has_length-is_slug [] h = cc
has_length-is_slug (c ∷ s) h = ground arith

scope_of-valid :
    (tenant_id : Text) (clearance : AccessTier)
    → is_slug 80 tenant_id ≡ true
    → authorization_context tenant_id clearance
      ≡ some (record { tenant_id = tenant_id; clearance = clearance })
unfolding authorization_context
scope_of-valid tenant_id clearance h = rw h refl

module _ (document_id : Text) (scope : AuthorizationContext) where
  -- 200 with a document of a row that the scope may read, or 404 when there is no such row, or 503.
  abbrev pub Reports : Response DocumentRecord → Shared → Type 0
  Reports (responded status document) s =
      (status ≡ 200) × ReadsRow document_id scope (some document) s
  Reports (refused status) s = (status ≡ 503) ⊎ ((status ≡ 404) × ReadsRow document_id scope none s)

  abbrev Gives : {A : Type 0} → (A → Shared → Type 0) → Action A → Shared → Type 0
  Gives Q m s = Ensures Performs (λ _ _. Unit {0}) (λ _ _. Unit {0}) Q m s

  read_document-ReadsRow :
      (available : Bool) (s : Shared)
      → Gives (ReadsRow document_id scope) (read_document available document_id scope) s
  unfolding read_document repository
  read_document-ReadsRow true s = get_document-ReadsRow document_id scope s
  read_document-ReadsRow false s = Ensures-raise _ _ _ _ _ s

  answered-Reports :
      (o : Outcome Error (Option DocumentRecord)) (s : Shared)
      → OfReturned Performs (λ _ _. Unit {0}) (λ _ _. Unit {0}) (ReadsRow document_id scope) o s
      → Gives Reports (answered read_status found_or_404 o) s
  unfolding read_status
  answered-Reports (returned none) s h = Ensures-pure _ _ _ _ _ s (inr (refl, h))
  answered-Reports (returned (some document)) s h = Ensures-pure _ _ _ _ _ s (refl, h)
  answered-Reports (raised repository_error) s h = Ensures-pure _ _ _ _ _ s (inl refl)
  answered-Reports (raised documents_unavailable) s h = Ensures-pure _ _ _ _ _ s (inl refl)
  answered-Reports (raised validation_error) s h = Ensures-raise _ _ _ _ _ s
  answered-Reports (raised value_error) s h = Ensures-raise _ _ _ _ _ s
  answered-Reports (raised postgres_error) s h = Ensures-raise _ _ _ _ _ s
  answered-Reports (raised os_error) s h = Ensures-raise _ _ _ _ _ s
  answered-Reports (raised interface_error) s h = Ensures-raise _ _ _ _ _ s

  route-Reports :
      (available : Bool) (s : Shared)
      → Gives Reports
          (attempt (read_document available document_id scope)
            >>= answered read_status found_or_404)
          s
  route-Reports available s =
      Ensures-bind _ _ _ _ _ (attempt (read_document available document_id scope)) _ s
        (Ensures-attempt _ _ _ _ (read_document available document_id scope) s
          (read_document-ReadsRow available s))
        answered-Reports

answered-Uncaught :
    (o : Outcome Error (Option DocumentRecord))
    → OfRaised IsServiceReadError o
    → FailsAs {C = Call} {Answer = Answer} IsUncaught (answered read_status found_or_404 o)
unfolding read_status
answered-Uncaught (returned o) h = FailsAs-pure _ _
answered-Uncaught (raised e) (inl h) = rw h (FailsAs-pure _ _)
answered-Uncaught (raised e) (inr (inl h)) = rw h (FailsAs-pure _ _)
answered-Uncaught (raised e) (inr (inr (inl h))) = rw h (FailsAs-raise _ _ (inl refl))
answered-Uncaught (raised e) (inr (inr (inr (inl h)))) = rw h (FailsAs-raise _ _ (inr (inl refl)))
answered-Uncaught (raised e) (inr (inr (inr (inr (inl h))))) =
    rw h (FailsAs-raise _ _ (inr (inr (inl refl))))
answered-Uncaught (raised e) (inr (inr (inr (inr (inr h))))) =
    rw h (FailsAs-raise _ _ (inr (inr (inr refl))))

-- For a caller with a valid tenant identifier, whatever others do: when the route of one document
-- answers, it is a 200 with a document whose row is in the table and in the scope of the caller, a
-- 404 when no row under the identifier is in the scope, or a 503. It may also end with an error,
-- which is an OSError or an InterfaceError of the driver, or a ValueError of a row.
pub get_one_document-Reports :
    (available : Bool) (document_id tenant_id : Text) (clearance : AccessTier) (s : Shared)
    → is_slug 80 tenant_id ≡ true
    → Ensures Performs
        (λ _ _. Unit {0})
        (λ _ _. Unit {0})
        (Reports document_id (record { tenant_id = tenant_id; clearance = clearance }))
        (get_one_document available document_id tenant_id clearance)
        s
      × FailsAs IsUncaught (get_one_document available document_id tenant_id clearance)
unfolding get_one_document scope_of
get_one_document-Reports available document_id tenant_id clearance s valid =
    let scope : AuthorizationContext = record { tenant_id = tenant_id; clearance = clearance } in
    (
      rw (has_length-is_slug tenant_id valid, scope_of-valid tenant_id clearance valid)
          (route-Reports document_id scope available s),
      rw (has_length-is_slug tenant_id valid, scope_of-valid tenant_id clearance valid)
          (FailsAs-try IsServiceReadError IsUncaught (answered read_status found_or_404)
            answered-Uncaught (read_document available document_id scope)
            (read_document-FailsAs available document_id scope)),
    )
