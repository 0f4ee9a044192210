-- ===== src/Documents/Run.antt =====
-- One program alone with a database that does what each statement asks.
use ai_system_engineering_cu.Base.{
  ◌≡◌, refl, [], ◌∷◌, ◌++◌, filter, In-filter, sort, sort-IsSorted, In-sort, leb, arith, true,
  false, ℕ,
}
use ai_system_engineering_cu.Effects.{pure, raise, call, Outcome, returned, raised, ◌>>=◌, attempt}
use ai_system_engineering_cu.Documents.Calls.{
  Call, Answer, Action, Error, Shared, got, acquire, release, begin, commit, rollback, execute,
  select_document, select_chunks, select_documents, found, applied, keeps_document, keeps_chunk,
  by_index, Performs, Selects,
}

abbrev pub performed : (c : Call) → Shared → Answer c × Shared
performed acquire s = (got tt, s)
performed release s = (got tt, record s { pending = [] })
performed begin s = (got tt, record s { pending = [] })
performed commit s = (got tt, record (applied s.pending s) { pending = [] })
performed rollback s = (got tt, record s { pending = [] })
performed (execute insert) s = (got tt, record s { pending = s.pending ++ insert ∷ [] })
performed (select_document document_id tenant clearance) s =
    (got (found document_id tenant clearance s.documents), s)
performed (select_chunks document_id tenant clearance) s =
    (got (sort by_index (filter (keeps_chunk document_id tenant clearance) s.chunks)), s)
performed (select_documents tenant clearance) s =
    (got (filter (keeps_document tenant clearance) s.documents), s)

leb_total : (a b : ℕ) → leb a b ≡ false → leb b a ≡ true
leb_total a b h = ground arith

leb_trans : (a b c : ℕ) → leb a b ≡ true → leb b c ≡ true → leb a c ≡ true
leb_trans a b c h k = ground arith

-- It is one of the databases that the relation `Performs` allows.
pub performed-Performs : (c : Call) (s : Shared) → Performs c s (performed c s).0 (performed c s).1
performed-Performs acquire s = refl
performed-Performs release s = refl
performed-Performs begin s = refl
performed-Performs commit s = refl
performed-Performs rollback s = refl
performed-Performs (execute insert) s = refl
performed-Performs (select_document document_id tenant clearance) s = (refl, refl)
performed-Performs (select_chunks document_id tenant clearance) s = (
  (
    selects,
    sort-IsSorted by_index (λ a b. leb_total a.chunk_index b.chunk_index)
        (λ a b c. leb_trans a.chunk_index b.chunk_index c.chunk_index)
        (filter (keeps_chunk document_id tenant clearance) s.chunks),
  ),
  refl,
)
  where
    selects :
        Selects
          (keeps_chunk document_id tenant clearance)
          s.chunks
          (sort by_index (filter (keeps_chunk document_id tenant clearance) s.chunks))
    selects row =
        let i = In-sort by_index row (filter (keeps_chunk document_id tenant clearance) s.chunks) in
        let f = In-filter (keeps_chunk document_id tenant clearance) row s.chunks in
        (λ h. f.0 (i.1 h), λ h. i.0 (f.1 h))
performed-Performs (select_documents tenant clearance) s =
    (λ row. In-filter (keeps_document tenant clearance) row s.documents, refl)

abbrev pub run : {A : Type 0} → Action A → Shared → Outcome Error A × Shared
run (pure a) s = (returned a, s)
run (raise e) s = (raised e, s)
run (call c k) s = run (k (performed c s).0) (performed c s).1

pub run-attempt :
    {A : Type 0} (m : Action A) (s : Shared)
    → run (attempt m) s ≡ (returned (run m s).0, (run m s).1)
run-attempt (pure a) s = refl
run-attempt (raise e) s = refl
run-attempt (call c k) s = run-attempt (k (performed c s).0) (performed c s).1

-- A program goes on where the one before it returned.
pub run-bind :
    {A B : Type 0} (m : Action A) (f : A → Action B) (s t : Shared) (a : A)
    → run m s ≡ (returned a, t)
    → run (m >>= f) s ≡ run (f a) t
run-bind (pure b) f s t a h = cc
run-bind (raise e) f s t a h = cc
run-bind (call c k) f s t a h = run-bind (k (performed c s).0) f (performed c s).1 t a h

pub run-bind_raised :
    {A B : Type 0} (m : Action A) (f : A → Action B) (s t : Shared) (e : Error)
    → run m s ≡ (raised e, t)
    → run (m >>= f) s ≡ (raised e, t)
run-bind_raised (pure b) f s t e h = cc
run-bind_raised (raise e') f s t e h = cc
run-bind_raised (call c k) f s t e h =
    run-bind_raised (k (performed c s).0) f (performed c s).1 t e h
