-- ===== src/Documents/Repository/Atomic.antt =====
-- What a save commits.
use ai_system_engineering_cu.Base.{◌≡◌, refl, ap, subst, ◌∙◌, List, [], ◌∷◌, ◌++◌, map}
use ai_system_engineering_cu.Effects.{Outcome, returned, raised, call, attempt, ◌>>=◌, ◌>>◌}
use ai_system_engineering_cu.Effects.Interference.{
  Ensures, OfReturned, Ensures-pure, Ensures-raise, Ensures-call, Ensures-bind, Ensures-attempt,
  Ensures-if,
}
use ai_system_engineering_cu.Domain.Documents.{DocumentRecord, ChunkRecord}
use ai_system_engineering_cu.Documents.Calls.{
  Action, Error, Call, Shared, Performs, Insert, document_row, chunk_row, Got, got, rejected,
  unreachable, unusable, acquire, release, begin, commit, rollback, execute,
}
use ai_system_engineering_cu.Documents.Repository.{
  got_or_raise, row_of_document, row_of_chunk, has_foreign, insert_chunks, inserts, after_inserts,
  transaction, after_use, on_connection, after_transaction, save_document,
}

append_one :
    (xs : List Insert) (x : Insert) (ys : List Insert) → (xs ++ x ∷ []) ++ ys ≡ xs ++ x ∷ ys
append_one [] x ys = refl
append_one (y ∷ xs) x ys = ap (λ zs. y ∷ zs) (append_one xs x ys)

append-nil : (xs : List Insert) → xs ≡ xs ++ []
append-nil [] = refl
append-nil (x ∷ xs) = ap (λ ys. x ∷ ys) (append-nil xs)

-- The others do not touch the transaction of this connection.
abbrev pub KeepsTransaction : Shared → Shared → Type 0
KeepsTransaction s t = t.pending ≡ s.pending

-- A COMMIT is made with these rows in the transaction.
abbrev pub CommitsOnly : List Insert → Call → Shared → Type 0
CommitsOnly whole commit t = t.pending ≡ whole
CommitsOnly whole _ t = Unit

abbrev chunk_rows : List ChunkRecord → List Insert
chunk_rows = map (λ chunk. chunk_row (row_of_chunk chunk))

-- The rows of a document and of all its chunks.
abbrev pub rows_of : DocumentRecord → List ChunkRecord → List Insert
rows_of document chunks = document_row (row_of_document document) ∷ chunk_rows chunks

module _ (whole : List Insert) where
  abbrev Safe : {A : Type 0} → (A → Shared → Type 0) → Action A → Shared → Type 0
  Safe Q m s = Ensures Performs KeepsTransaction (CommitsOnly whole) Q m s

  execute-Safe :
      (insert : Insert) (p q : List Insert) (m : Action Unit) (s : Shared)
      → s.pending ≡ p
      → ((t : Shared) → t.pending ≡ p ++ insert ∷ [] → Safe (λ _ u. u.pending ≡ q) m t)
      → Safe (λ _ u. u.pending ≡ q) (call (execute insert) got_or_raise >> m) s
  execute-Safe insert p q m s h f =
      Ensures-call _ _ _ _ _ _ s (λ _ _. tt) (λ t r a t' d. answered t t' a (r ∙ h) d)
    where
      answered :
          (t t' : Shared) (a : Got Unit)
          → t.pending ≡ p
          → Performs (execute insert) t a t'
          → Safe (λ _ u. u.pending ≡ q) (got_or_raise a >> m) t'
      answered t t' (got a) e d = f t' (ap (λ u. u.pending) d ∙ ap (λ xs. xs ++ insert ∷ []) e)
      answered t t' rejected e d = Ensures-raise _ _ _ _ _ t'
      answered t t' unreachable e d = Ensures-raise _ _ _ _ _ t'
      answered t t' unusable e d = Ensures-raise _ _ _ _ _ t'

  insert_chunks-Safe :
      (chunks : List ChunkRecord) (p : List Insert) (s : Shared)
      → s.pending ≡ p
      → Safe (λ _ u. u.pending ≡ p ++ chunk_rows chunks) (insert_chunks chunks) s
  unfolding insert_chunks
  insert_chunks-Safe [] p s h = Ensures-pure _ _ _ _ tt s (h ∙ append-nil p)
  insert_chunks-Safe (chunk ∷ chunks) p s h = execute-Safe _ p _ (insert_chunks chunks) s h (λ t e.
      subst (λ q. Safe (λ _ u. u.pending ≡ q) (insert_chunks chunks) t)
        (append_one p _ (chunk_rows chunks)) (insert_chunks-Safe chunks _ t e))

  got-Safe : (a : Got Unit) (s : Shared) → Safe (λ _ _. Unit {0}) (got_or_raise a) s
  got-Safe (got a) s = Ensures-pure _ _ _ _ a s tt
  got-Safe rejected s = Ensures-raise _ _ _ _ _ s
  got-Safe unreachable s = Ensures-raise _ _ _ _ _ s
  got-Safe unusable s = Ensures-raise _ _ _ _ _ s

  after_inserts-Safe :
      (o : Outcome Error Unit) (s : Shared)
      → OfReturned Performs KeepsTransaction (CommitsOnly whole) (λ _ u. u.pending ≡ whole) o s
      → Safe (λ _ _. Unit {0}) (after_inserts o) s
  unfolding after_inserts
  after_inserts-Safe (returned done) s h =
      Ensures-call _ _ _ _ _ _ s (λ t r. r ∙ h) (λ t r a t' d. got-Safe a t')
  after_inserts-Safe (raised e) s h =
      Ensures-bind _ _ _ _ _ (call rollback got_or_raise) _ s
        (Ensures-call _ _ _ _ _ _ s (λ _ _. tt) (λ t r a t' d. got-Safe a t'))
        (λ done t k. Ensures-raise _ _ _ _ e t)

inserts-Safe :
    (document : DocumentRecord) (chunks : List ChunkRecord) (s : Shared)
    → s.pending ≡ []
    → Safe
        (rows_of document chunks)
        (λ _ u. u.pending ≡ rows_of document chunks)
        (inserts document chunks)
        s
unfolding inserts
inserts-Safe document chunks s h =
    execute-Safe _ _ [] _ (insert_chunks chunks) s h (λ t e. insert_chunks-Safe _ chunks _ t e)

transaction-Safe :
    (document : DocumentRecord) (chunks : List ChunkRecord) (s : Shared)
    → Safe (rows_of document chunks) (λ _ _. Unit {0}) (transaction document chunks) s
unfolding transaction
transaction-Safe document chunks s =
    Ensures-call _ _ _ _ _ _ s (λ _ _. tt) (λ t r a t' d. begun t t' a d)
  where
    begun :
        (t t' : Shared) (a : Got Unit)
        → Performs begin t a t'
        → Safe
            (rows_of document chunks)
            (λ _ _. Unit {0})
            (got_or_raise a >> (attempt (inserts document chunks) >>= after_inserts))
            t'
    begun t t' (got a) d =
        Ensures-bind _ _ _ _ _ (attempt (inserts document chunks)) _ t'
          (Ensures-attempt _ _ _ _ (inserts document chunks) t'
            (inserts-Safe document chunks t' (ap (λ u. u.pending) d)))
          (λ o u h. after_inserts-Safe _ o u h)
    begun t t' rejected d = Ensures-raise _ _ _ _ _ t'
    begun t t' unreachable d = Ensures-raise _ _ _ _ _ t'
    begun t t' unusable d = Ensures-raise _ _ _ _ _ t'

after_use-Safe :
    (whole : List Insert) (o : Outcome Error Unit) (s : Shared)
    → Safe whole (λ _ _. Unit {0}) (after_use o) s
unfolding after_use
after_use-Safe whole (returned done) s =
    Ensures-call _ _ _ _ _ _ s (λ _ _. tt) (λ t r a t' d. got-Safe whole a t')
after_use-Safe whole (raised e) s =
    Ensures-bind _ _ _ _ _ (call release got_or_raise) _ s
      (Ensures-call _ _ _ _ _ _ s (λ _ _. tt) (λ t r a t' d. got-Safe whole a t'))
      (λ done t k. Ensures-raise _ _ _ _ e t)

on_connection-Safe :
    (document : DocumentRecord) (chunks : List ChunkRecord) (s : Shared)
    → Safe (rows_of document chunks) (λ _ _. Unit {0}) (on_connection document chunks) s
unfolding on_connection
on_connection-Safe document chunks s =
    Ensures-bind _ _ _ _ _ (call acquire got_or_raise) _ s
      (Ensures-call _ _ _ _ _ _ s (λ _ _. tt) (λ t r a t' d. got-Safe _ a t'))
      (λ done t k.
        Ensures-bind _ _ _ _ _ (attempt (transaction document chunks)) _ t
          (Ensures-attempt _ _ _ _ (transaction document chunks) t
            (transaction-Safe document chunks t))
          (λ o u h. after_use-Safe _ o u))

after_transaction-Safe :
    (whole : List Insert) (o : Outcome Error Unit) (s : Shared)
    → Safe whole (λ _ _. Unit {0}) (after_transaction o) s
unfolding after_transaction
after_transaction-Safe whole (returned done) s = Ensures-pure _ _ _ _ _ s tt
after_transaction-Safe whole (raised e) s = Ensures-raise _ _ _ _ _ s

-- Whatever fails on the way, and while others leave the transaction alone: save_document makes a
-- COMMIT only when the transaction holds the row of the document and those of all its chunks.
pub save_document-CommitsOnly :
    (document : DocumentRecord) (chunks : List ChunkRecord) (s : Shared)
    → Ensures Performs KeepsTransaction
        (CommitsOnly (rows_of document chunks))
        (λ _ _. Unit {0})
        (save_document document chunks)
        s
unfolding save_document
save_document-CommitsOnly document chunks s =
    Ensures-if _ _ _ _ (has_foreign document.document_id chunks) _ _ s (Ensures-raise _ _ _ _ _ s) (
      Ensures-bind _ _ _ _ _ (attempt (on_connection document chunks)) _ s
        (Ensures-attempt _ _ _ _ (on_connection document chunks) s
          (on_connection-Safe document chunks s))
        (λ o t h. after_transaction-Safe _ o t))
