-- ===== src/Corpus/Loader/Repeat.antt =====
-- A second ingestion of the same corpus changes nothing.
use ai_system_engineering_cu.Base.{
  ℕ, ◌≡◌, refl, sym, ap, ◌∙◌, subst, ◌⊎◌, inl, inr, Bool-cases, Option, some, List, [], ◌∷◌, map,
  Text, Table, lookup, lookup-put, text_eq, ◌==◌, concat, if◌then◌else◌,
}
use ai_system_engineering_cu.Effects.{pure, raise, call, Outcome, returned, raised, ◌>>=◌, each}
use ai_system_engineering_cu.Effects.Guarantee.{Calls}
use ai_system_engineering_cu.Domain.Documents.{DocumentRecord, ChunkRecord}
use ai_system_engineering_cu.Documents.Repository.{row_of_document, row_of_chunk}
use ai_system_engineering_cu.Corpus.Calls.{
  Action, Error, Shared, document_key, chunk_key, upserted, applied, performed, read_object, begin,
  commit, rollback, execute_many,
}
use ai_system_engineering_cu.Corpus.Lines.{Json}
use ai_system_engineering_cu.Corpus.Reading.{value_or_raise, read_documents}
use ai_system_engineering_cu.Corpus.Reading.Reads.{IsRead, read_documents-Makes}
use ai_system_engineering_cu.Corpus.Loader.{
  LoadReport, chunks_of, report, write_rows, after_rows, stored, ingested, load,
}

-- One program alone, with a database and an object store that do what each call asks.
abbrev pub run : {A : Type 0} → Action A → Shared → Outcome Error A × Shared
run (pure a) s = (returned a, s)
run (raise e) s = (raised e, s)
run (call c k) s = run (k (performed c s).0) (performed c s).1

-- A program that only reads leaves the state, and what it returns depends on the objects.
run-reads : {A : Type 0} (m : Action A) (s : Shared) → Calls IsRead m → (run m s).1 ≡ s
run-reads (pure a) s h = refl
run-reads (raise e) s h = refl
run-reads (call (read_object key) k) s h = run-reads (k (performed (read_object key) s).0) s (h.1 _)
run-reads (call begin k) s h = absurd h.0
run-reads (call commit k) s h = absurd h.0
run-reads (call rollback k) s h = absurd h.0
run-reads (call (execute_many u) k) s h = absurd h.0

run-objects :
    {A : Type 0} (m : Action A) (s t : Shared)
    → s.objects ≡ t.objects
    → Calls IsRead m
    → (run m s).0 ≡ (run m t).0
run-objects (pure a) s t e h = refl
run-objects (raise x) s t e h = refl
run-objects (call (read_object key) k) s t e h =
    run-objects (k (performed (read_object key) s).0) s t e (h.1 _)
    ∙ ap (λ o. (run (k (performed (read_object key) (record t { objects = o })).0) t).0) e
run-objects (call begin k) s t e h = absurd h.0
run-objects (call commit k) s t e h = absurd h.0
run-objects (call rollback k) s t e h = absurd h.0
run-objects (call (execute_many u) k) s t e h = absurd h.0

-- What a run of upserts does to one key: nothing, or it sets the row.
module _ {R : Type 0} (key_of : R → Text) (k : Text) where
  latest : List R → Option R → Option R
  latest [] old = old
  latest (row ∷ rows) old = latest rows (if key_of row == k then some row else old)

  lookup-upserted :
      (rows : List R) (table : Table Text R)
      → lookup k (upserted key_of rows table) ≡ latest rows (lookup k table)
  unfolding upserted latest
  lookup-upserted [] table = refl
  lookup-upserted (row ∷ rows) table =
      lookup-upserted rows _ ∙ ap (latest rows) (lookup-put (key_of row) k row table)

  latest_cases :
      (rows : List R)
      → ((old : Option R) → latest rows old ≡ old)
        ⊎ ((new : Option R) × ((old : Option R) → latest rows old ≡ new))
  unfolding latest
  latest_cases [] = inl (λ old. refl)
  latest_cases (row ∷ rows) = elim (latest_cases rows) [
    | inl keeps ↦ elim (Bool-cases (key_of row == k)) [
      | inl same ↦ inr (some row, λ old. rw same (keeps (some row)))
      | inr other ↦ inl (λ old. rw other (keeps old))
    ]
    | inr (new, sets) ↦ inr (new, λ old. sets _)
  ]

  latest_twice : (rows : List R) (old : Option R) → latest rows (latest rows old) ≡ latest rows old
  latest_twice rows old = elim (latest_cases rows) [
    | inl keeps ↦ keeps (latest rows old)
    | inr (new, sets) ↦ sets (latest rows old) ∙ sym (sets old)
  ]

  upserted_twice :
      (rows : List R) (table : Table Text R)
      → lookup k (upserted key_of rows (upserted key_of rows table))
        ≡ lookup k (upserted key_of rows table)
  upserted_twice rows table =
      lookup-upserted rows (upserted key_of rows table)
      ∙ ap (latest rows) (lookup-upserted rows table)
      ∙ latest_twice rows (lookup k table)
      ∙ sym (lookup-upserted rows table)

-- The same rows under the same keys.
pub record SameRows (s t : Shared) : Type 0 where
  pub documents : (k : Text) → lookup k t.documents ≡ lookup k s.documents
  pub chunks : (k : Text) → lookup k t.chunks ≡ lookup k s.chunks

-- The state after a run that stores these documents and chunks.
abbrev pub storing : List DocumentRecord → List ChunkRecord → Shared → Shared
storing documents chunks s = record {
  objects = s.objects;
  documents = upserted document_key (map row_of_document documents) s.documents;
  chunks = upserted chunk_key (map row_of_chunk chunks) s.chunks;
  pending = [];
}

pub run-stored :
    (isoformat : ℕ → Text) (hexdigest : List Text → Text) (documents : List DocumentRecord)
    (chunks : List ChunkRecord) (s : Shared)
    → run (stored isoformat hexdigest documents chunks) s
      ≡ (returned (report isoformat hexdigest documents chunks), storing documents chunks s)
unfolding stored write_rows after_rows applied
run-stored isoformat hexdigest documents chunks s = refl

module _ (isoformat : ℕ → Text) (hexdigest : List Text → Text) (json : Json)
    (casefold : Text → Text) (blake2b : Text → ℕ → ℕ) where
  after_chunks :
      List DocumentRecord
      → Outcome Error (List (List ChunkRecord))
      → Shared
      → Outcome Error LoadReport × Shared
  after_chunks documents (raised e) s = (raised e, s)
  after_chunks documents (returned chunks) s = (
    returned (report isoformat hexdigest documents (concat chunks)),
    storing documents (concat chunks) s,
  )

  after_read : Outcome Error (List DocumentRecord) → Shared → Outcome Error LoadReport × Shared
  unfolding after_chunks chunks_of
  after_read (raised e) s = (raised e, s)
  after_read (returned documents) s =
      after_chunks documents (each (chunks_of casefold blake2b) documents) s

  run-ingested :
      (documents : List DocumentRecord) (o : Outcome Error (List (List ChunkRecord))) (s : Shared)
      → run (value_or_raise o >>= λ chunks. stored isoformat hexdigest documents (concat chunks)) s
        ≡ after_chunks documents o s
  unfolding after_chunks
  run-ingested documents (raised e) s = refl
  run-ingested documents (returned chunks) s =
      run-stored isoformat hexdigest documents (concat chunks) s

  run-read :
      (m : Action (List DocumentRecord)) (s : Shared)
      → Calls IsRead m
      → run (m >>= ingested isoformat hexdigest json casefold blake2b) s ≡ after_read (run m s).0 s
  unfolding ingested after_read
  run-read (pure documents) s h =
      run-ingested documents (each (chunks_of casefold blake2b) documents) s
  run-read (raise e) s h = refl
  run-read (call (read_object key) k) s h = run-read (k (performed (read_object key) s).0) s (h.1 _)
  run-read (call begin k) s h = absurd h.0
  run-read (call commit k) s h = absurd h.0
  run-read (call rollback k) s h = absurd h.0
  run-read (call (execute_many u) k) s h = absurd h.0

  run-load :
      (s : Shared)
      → run (load isoformat hexdigest json casefold blake2b) s
        ≡ after_read (run (read_documents json) s).0 s
  unfolding load
  run-load s = run-read (read_documents json) s (read_documents-Makes json).at

  -- Once the documents are read and cut.
  pub run-load_of :
      (documents : List DocumentRecord) (chunks : List (List ChunkRecord)) (s : Shared)
      → run (read_documents json) s ≡ (returned documents, s)
      → each (chunks_of casefold blake2b) documents ≡ returned chunks
      → run (load isoformat hexdigest json casefold blake2b) s ≡ (
        returned (report isoformat hexdigest documents (concat chunks)),
        storing documents (concat chunks) s,
      )
  unfolding after_read after_chunks
  run-load_of documents chunks s read cut =
      run-load s ∙ ap (λ p. after_read p.0 s) read ∙ ap (λ o. after_chunks documents o s) cut

  stored_twice :
      (documents : List DocumentRecord) (chunks : List ChunkRecord) (s : Shared)
      → SameRows
          (storing documents chunks s)
          (storing documents chunks (storing documents chunks s))
  stored_twice documents chunks s = record {
    documents = λ k. upserted_twice document_key k (map row_of_document documents) s.documents;
    chunks = λ k. upserted_twice chunk_key k (map row_of_chunk chunks) s.chunks;
  }

  chunks_again :
      (documents : List DocumentRecord) (o : Outcome Error (List (List ChunkRecord))) (s : Shared)
      (summary : LoadReport) (t : Shared)
      → after_chunks documents o s ≡ (returned summary, t)
      → (u : Shared) × (after_chunks documents o t ≡ (returned summary, u))
        × SameRows t u
        × (t.objects ≡ s.objects)
  unfolding after_chunks
  chunks_again documents (raised e) s summary t h = cc
  chunks_again documents (returned chunks) s summary t h =
      subst
        (λ v.
          (u : Shared) × (after_chunks documents (returned chunks) v ≡ (returned summary, u))
          × SameRows v u
          × (v.objects ≡ s.objects))
        same
        (
          storing documents (concat chunks) (storing documents (concat chunks) s),
          ap (λ r. (r, storing documents (concat chunks) (storing documents (concat chunks) s)))
              (ap (λ p. p.0) h),
          stored_twice documents (concat chunks) s,
          refl,
        )
    where
      same : storing documents (concat chunks) s ≡ t
      same = ap (λ p. p.1) h

  read_again :
      (o : Outcome Error (List DocumentRecord)) (s : Shared) (summary : LoadReport) (t : Shared)
      → after_read o s ≡ (returned summary, t)
      → (u : Shared) × (after_read o t ≡ (returned summary, u))
        × SameRows t u
        × (t.objects ≡ s.objects)
  unfolding after_read
  read_again (raised e) s summary t h = cc
  read_again (returned documents) s summary t h =
      chunks_again documents (each (chunks_of casefold blake2b) documents) s summary t h

  -- With a database and an object store that do what each call asks: when load returns a report, a
  -- second load returns the same report and leaves the same row under each identifier in both
  -- tables.
  pub load-load :
      (s : Shared) (summary : LoadReport) (t : Shared)
      → run (load isoformat hexdigest json casefold blake2b) s ≡ (returned summary, t)
      → (u : Shared) × (run (load isoformat hexdigest json casefold blake2b) t
          ≡ (returned summary, u))
        × SameRows t u
  load-load s summary t h =
      let (u, again, same, objects) =
        read_again (run (read_documents json) s).0 s summary t (sym (run-load s) ∙ h) in
      (
        u,
        run-load t
            ∙ ap (λ o. after_read o t)
                (run-objects (read_documents json) t s objects (read_documents-Makes json).at)
            ∙ again,
        same,
      )
