-- ===== src/Documents/Repository/Scope.antt =====
-- What a read may return.
use ai_system_engineering_cu.Base.{
  ◌≡◌, ◌≢◌, refl, sym, ap, ◌∙◌, inl, inr, Bool, true, false, not, ◌&&◌, ◌||◌, Bool-cases, Option,
  none, some, some_eq, List, [], ◌∷◌, Text, ◌==◌, text_eq, text_beq, In, All, if◌then◌else◌, arith,
}
use ai_system_engineering_cu.Domain.Access.{
  AccessTier, standard, restricted, tier_eq, tier_value, AuthorizationContext, readable,
  access_tier_of, access_label,
}
use ai_system_engineering_cu.Domain.Validation.{is_slug}
use ai_system_engineering_cu.Domain.Documents.{
  DocumentRecord, is_document, is_provenance, provenance_of,
}
use ai_system_engineering_cu.Effects.{pure, raise, returned, raised, Outcome, call, attempt}
use ai_system_engineering_cu.Effects.Interference.{
  Ensures, OfReturned, Ensures-pure, Ensures-raise, Ensures-call, Ensures-bind, Ensures-attempt,
}
use ai_system_engineering_cu.Documents.Calls.{
  Action, Error, Shared, DocumentRow, Performs, in_scope, found, Got, got, rejected, unreachable,
  unusable, select_document,
}
use ai_system_engineering_cu.Documents.Repository.{
  got_or_raise, row_of_document, document_of, with_tier, with_label, with_provenance,
  checked_document, after_select, get_document,
}

-- The predicate of _scope_clause, with the tenancy and the clearance of the caller bound, is the
-- rule readable.
pub in_scope-readable :
    (scope : AuthorizationContext) (tenant : Text) (tier : AccessTier)
    → in_scope scope.tenant_id (tier_value scope.clearance) tenant (tier_value tier)
      ≡ readable scope tenant tier
unfolding readable in_scope text_beq
in_scope-readable scope tenant tier = by_tier scope.clearance tier
  where
    by_tier :
        (clearance t : AccessTier)
        → in_scope scope.tenant_id (tier_value clearance) tenant (tier_value t) ≡ (
            if not (tenant == scope.tenant_id)
            then false
            else t == standard || clearance == restricted)
    by_tier standard standard = ground arith
    by_tier standard restricted = ground arith
    by_tier restricted standard = ground arith
    by_tier restricted restricted = ground arith

pub tier_back : (tier : AccessTier) → access_tier_of (tier_value tier) ≡ some tier
unfolding access_tier_of text_beq
tier_back standard = refl
tier_back restricted = refl

none≢some : {row : DocumentRow} → none ≢ some row
none≢some h = cc

-- A document that passed its validators is read back from its row as it was, with its label and
-- its whole custody record.
pub document_of-row_of_document :
    (document : DocumentRecord)
    → is_document document ≡ true
    → is_slug 80 document.access.tenant_id ≡ true
    → is_provenance document.provenance ≡ true
    → document_of (row_of_document document) ≡ returned document
unfolding document_of with_tier with_label with_provenance checked_document row_of_document
    access_label provenance_of
document_of-row_of_document document d a p =
    rw (tier_back document.access.access_tier, a, p, d) refl

found-row :
    (document_id tenant clearance : Text) (rows : List DocumentRow) (row : DocumentRow)
    → found document_id tenant clearance rows ≡ some row
    → In row rows
      × ((row.document_id == document_id && in_scope tenant clearance row.tenant_id row.access_tier)
          ≡ true)
unfolding found
found-row document_id tenant clearance [] row h = absurd (none≢some h)
found-row document_id tenant clearance (x ∷ rows) row h =
    elim (Bool-cases
      (x.document_id == document_id && in_scope tenant clearance x.tenant_id x.access_tier)) [
        | inl hit ↦ rw (sym (some_eq (rw hit at h))) (inl refl, hit)
        | inr miss ↦
            let (i, fits) = found-row document_id tenant clearance rows row (rw miss at h) in
            (inr i, fits)
      ]

found-none :
    (document_id tenant clearance : Text) (rows : List DocumentRow)
    → found document_id tenant clearance rows ≡ none
    → All
        (λ row.
          (row.document_id == document_id
            && in_scope tenant clearance row.tenant_id row.access_tier)
          ≡ false)
        rows
unfolding found
found-none document_id tenant clearance [] h = tt
found-none document_id tenant clearance (x ∷ rows) h =
    elim (Bool-cases
      (x.document_id == document_id && in_scope tenant clearance x.tenant_id x.access_tier)) [
        | inl hit ↦ absurd (none≢some (sym (rw hit at h)))
        | inr miss ↦ (miss, found-none document_id tenant clearance rows (rw miss at h))
      ]

module _ (document_id : Text) (scope : AuthorizationContext) where
  -- Does the WHERE clause of the read keep a row?
  abbrev pub is_kept : DocumentRow → Bool
  is_kept row =
      row.document_id == document_id
      && in_scope scope.tenant_id (tier_value scope.clearance) row.tenant_id row.access_tier

  -- A document that is read has its row in the table, and the clause keeps the row; when none is
  -- read, the clause keeps no row.
  abbrev pub ReadsRow : Option DocumentRecord → Shared → Type 0
  ReadsRow (some document) s =
      (row : DocumentRow) × In row s.documents
      × (is_kept row ≡ true)
      × (document_of row ≡ returned document)
  ReadsRow none s = All (λ row. is_kept row ≡ false) s.documents

  abbrev Gives : {A : Type 0} → (A → Shared → Type 0) → Action A → Shared → Type 0
  Gives Q m s = Ensures Performs (λ _ _. Unit {0}) (λ _ _. Unit {0}) Q m s

  -- What the statement selected.
  abbrev Selected : Option DocumentRow → Shared → Type 0
  Selected o s = o ≡ found document_id scope.tenant_id (tier_value scope.clearance) s.documents

  Selected-Gives :
      (a : Got (Option DocumentRow)) (s t : Shared)
      → Performs (select_document document_id scope.tenant_id (tier_value scope.clearance)) s a t
      → Gives Selected (got_or_raise a) t
  Selected-Gives (got o) s t d = Ensures-pure _ _ _ _ o t (
      d.0
      ∙ ap (λ u. found document_id scope.tenant_id (tier_value scope.clearance) u.documents)
          (sym d.1))
  Selected-Gives rejected s t d = Ensures-raise _ _ _ _ _ t
  Selected-Gives unreachable s t d = Ensures-raise _ _ _ _ _ t
  Selected-Gives unusable s t d = Ensures-raise _ _ _ _ _ t

  read-ReadsRow :
      (row : DocumentRow) (o : Outcome Error DocumentRecord) (s : Shared)
      → document_of row ≡ o
      → Selected (some row) s
      → Gives ReadsRow (elim o [ returned d ↦ pure (some d) | raised e ↦ raise e ]) s
  read-ReadsRow row (returned document) s e h =
      let (i, kept) = found-row _ _ _ s.documents row (sym h) in
      Ensures-pure _ _ _ _ _ s (row, i, kept, e)
  read-ReadsRow row (raised x) s e h = Ensures-raise _ _ _ _ _ s

  after_select-ReadsRow :
      (o : Outcome Error (Option DocumentRow)) (s : Shared)
      → OfReturned Performs (λ _ _. Unit {0}) (λ _ _. Unit {0}) Selected o s
      → Gives ReadsRow (after_select o) s
  unfolding after_select
  after_select-ReadsRow (raised e) s h = Ensures-raise _ _ _ _ _ s
  after_select-ReadsRow (returned none) s h =
      Ensures-pure _ _ _ _ _ s (found-none _ _ _ s.documents (sym h))
  after_select-ReadsRow (returned (some row)) s h = read-ReadsRow row (document_of row) s refl h

  -- Whatever others do: when get_document returns a document, the table holds its row, under the
  -- identifier and in the scope of the caller; when it returns none, no row of the table is under
  -- the identifier and in the scope.
  pub get_document-ReadsRow :
      (s : Shared)
      → Ensures Performs
          (λ _ _. Unit {0})
          (λ _ _. Unit {0})
          ReadsRow
          (get_document document_id scope)
          s
  unfolding get_document
  get_document-ReadsRow s =
      Ensures-bind _ _ _ _ _ (attempt (call (select_document _ _ _) got_or_raise)) _ s
        (Ensures-attempt _ _ _ _ (call (select_document _ _ _) got_or_raise) s
          (Ensures-call _ _ _ _ _ _ s (λ _ _. tt) (λ t r a t' d. Selected-Gives a t t' d)))
        after_select-ReadsRow
