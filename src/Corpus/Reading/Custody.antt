-- ===== src/Corpus/Reading/Custody.antt =====
-- What the documents that `_read_documents` returns satisfy.
use ai_system_engineering_cu.Base.{
  ℕ, ◌≤◌, ◌≡◌, ◌≢◌, refl, sym, ap, ◌∙◌, subst, arith, inl, inr, Bool, true, false, not, Bool-cases,
  Option, none, some, List, [], ◌∷◌, map, Text, literal, lookup, text_eq, text_leb_total,
  text_leb_trans, length, elem, elem-In, In, All, All-of, All-insert, All-sort, AreDistinct, sort,
  insert, In-sort, IsSorted, sort-IsSorted, nat_eq,
}
use ai_system_engineering_cu.Effects.{
  Outcome, returned, raised, Reply, reply, fault, ◌>>=◌, reply_or, each, Maps, each-Maps,
}
use ai_system_engineering_cu.Effects.Interference.{
  Ensures, Ensures-pure, Ensures-raise, Ensures-call,
}
use ai_system_engineering_cu.Domain.Documents.{DocumentRecord}
use ai_system_engineering_cu.Corpus.Calls.{
  Action, Error, Shared, Performs, read_object, object_store_error,
}
use ai_system_engineering_cu.Corpus.Lines.{Json}
use ai_system_engineering_cu.Corpus.Reading.{
  provenance_key, value_or_raise, as_set, repeats, identifier_of, by_identifier, Payload, entry_for,
  differs_from, refuse_if, agreement, checked_custody, and_then, parse_custody, parse_documents,
  with_custody, after_documents, read_documents,
}

-- A set of as many members as the list has them keeps all of them.
as_set-le : (xs : List Text) → length (as_set xs) ≤ length xs
unfolding as_set
as_set-le [] = omega arith
as_set-le (x ∷ xs) = ground (arith, as_set-le xs)

not_in : (x : Text) (xs : List Text) → elem x xs ≡ false → All (λ y. x ≢ y) xs
not_in x xs h =
    All-of _ xs (λ y i e. ground (arith, h, (elem-In x xs).1 (subst (λ z. In z xs) (sym e) i)))

as_set-AreDistinct : (xs : List Text) → length (as_set xs) ≡ length xs → AreDistinct xs
unfolding as_set
as_set-AreDistinct [] h = tt
as_set-AreDistinct (x ∷ xs) h = elim (Bool-cases (elem x xs)) [
  | inl again ↦ absurd (omega (arith, as_set-le xs, rw again at h))
  | inr new ↦ (not_in x xs new, as_set-AreDistinct xs (omega (arith, rw new at h)))
]

repeats-AreDistinct : (xs : List Text) → repeats xs ≡ false → AreDistinct xs
unfolding repeats
repeats-AreDistinct xs h = as_set-AreDistinct xs (ground (arith, h))

abbrev Other : DocumentRecord → DocumentRecord → Type 0
Other a b = a.document_id ≢ b.document_id

abbrev Differ : List DocumentRecord → Type 0
Differ [] = Unit
Differ (document ∷ documents) = All (Other document) documents × Differ documents

others_of :
    (id : Text) (documents : List DocumentRecord)
    → All (λ y. id ≢ y) (map identifier_of documents)
    → All (λ d. id ≢ d.document_id) documents
others_of id [] h = tt
others_of id (d ∷ ds) h = (h.0, others_of id ds h.1)

others_back :
    (id : Text) (documents : List DocumentRecord)
    → All (λ d. id ≢ d.document_id) documents
    → All (λ y. id ≢ y) (map identifier_of documents)
others_back id [] h = tt
others_back id (d ∷ ds) h = (h.0, others_back id ds h.1)

Differ-map :
    (documents : List DocumentRecord) → AreDistinct (map identifier_of documents) → Differ documents
Differ-map [] h = tt
Differ-map (d ∷ ds) h = (others_of d.document_id ds h.0, Differ-map ds h.1)

AreDistinct-Differ :
    (documents : List DocumentRecord) → Differ documents → AreDistinct (map identifier_of documents)
AreDistinct-Differ [] h = tt
AreDistinct-Differ (d ∷ ds) h = (others_back d.document_id ds h.0, AreDistinct-Differ ds h.1)

insert-Differ :
    (d : DocumentRecord) (documents : List DocumentRecord)
    → All (Other d) documents
    → Differ documents
    → Differ (insert by_identifier d documents)
unfolding insert
insert-Differ d [] h k = (tt, tt)
insert-Differ d (e ∷ documents) h k = elim (Bool-cases (by_identifier d e)) [
  | inl first ↦ rw first (h, k)
  | inr later ↦ rw later (
    All-insert by_identifier (Other e) d documents (λ same. h.0 (sym same)) k.0,
    insert-Differ d documents h.1 k.1,
  )
]

sort-Differ :
    (documents : List DocumentRecord) → Differ documents → Differ (sort by_identifier documents)
unfolding sort
sort-Differ [] h = tt
sort-Differ (d ∷ documents) h =
    insert-Differ d (sort by_identifier documents) (All-sort by_identifier (Other d) documents h.0)
      (sort-Differ documents h.1)

module _ (json : Json) where
  -- The value of a field is this text.
  abbrev pub Says : Payload json → Text → Text → Type 0
  Says entry name text =
      (value : json.Value) × (lookup name entry ≡ some value) × (json.is_text value text ≡ true)

  -- The entry of the side-file for a document agrees with its provenance.
  abbrev pub Agrees : List (json.Value × Payload json) → DocumentRecord → Type 0
  Agrees entries document =
      (entry : Payload json) × (entry_for json document.document_id entries ≡ some entry)
      × Says entry (literal "revision") document.provenance.revision
      × Says entry (literal "custodian") document.provenance.custodian
      × Says entry (literal "source_uri") document.provenance.source_uri

  refuse_if-returned :
      (o : Outcome Error Bool) (rest : Outcome Error Unit)
      → refuse_if json o rest ≡ returned tt
      → (o ≡ returned false) × (rest ≡ returned tt)
  refuse_if-returned (raised e) rest h = cc
  refuse_if-returned (returned true) rest h = cc
  refuse_if-returned (returned false) rest h = (refl, h)

  differs_from-Says :
      (entry : Payload json) (name expected : Text) (o : Option json.Value)
      → lookup name entry ≡ o
      → differs_from json expected o ≡ returned false
      → Says entry name expected
  unfolding differs_from
  differs_from-Says entry name expected none e h = cc
  differs_from-Says entry name expected (some value) e h =
      (value, e, same (json.is_text value expected) (cc h))
    where
      same : (b : Bool) → not b ≡ false → b ≡ true
      same true k = refl
      same false k = sym k

  agreement-Agrees :
      (entries : List (json.Value × Payload json)) (document : DocumentRecord)
      (o : Option (Payload json))
      → entry_for json document.document_id entries ≡ o
      → agreement json document o ≡ returned tt
      → Agrees entries document
  unfolding agreement
  agreement-Agrees entries document none e h = cc
  agreement-Agrees entries document (some entry) e h =
      let (revision, h1) = refuse_if-returned _ _ h in
      let (custodian, h2) = refuse_if-returned _ _ h1 in
      let (source_uri, h3) = refuse_if-returned _ _ h2 in
      (
        entry,
        e,
        differs_from-Says entry (literal "revision") _ _ refl revision,
        differs_from-Says entry (literal "custodian") _ _ refl custodian,
        differs_from-Says entry (literal "source_uri") _ _ refl source_uri,
      )

  each-Agrees :
      (entries : List (json.Value × Payload json)) (documents : List DocumentRecord)
      (done : List Unit)
      → Maps (checked_custody json entries) documents done
      → All (Agrees entries) documents
  unfolding checked_custody
  each-Agrees entries [] [] h = tt
  each-Agrees entries (d ∷ ds) (u ∷ us) h = (
    agreement-Agrees entries d (entry_for json d.document_id entries) refl h.0,
    each-Agrees entries ds us h.1,
  )
  each-Agrees entries [] (u ∷ us) h = absurd h
  each-Agrees entries (d ∷ ds) [] h = absurd h

  -- What the documents of a corpus satisfy, with the side-file that the store holds.
  pub record IsCorpus (documents : List DocumentRecord) (s : Shared) : Type 0 where
    pub some_document : documents ≢ []
    pub distinct : AreDistinct (map identifier_of documents)
    pub ordered : IsSorted by_identifier documents
    pub side_file : List ℕ
    pub entries : List (json.Value × Payload json)
    pub stored : lookup provenance_key s.objects ≡ some side_file
    pub parsed : parse_custody json side_file ≡ returned entries
    pub agreed : All (Agrees entries) documents

  abbrev Gives : {A : Type 0} → (A → Shared → Type 0) → Action A → Shared → Type 0
  Gives Q m s = Ensures Performs (λ _ _. Unit {0}) (λ _ _. Unit {0}) Q m s

  sorted-IsCorpus :
      (d : DocumentRecord) (documents : List DocumentRecord)
      (entries : List (json.Value × Payload json)) (payload : List ℕ) (s : Shared)
      → repeats (map identifier_of (d ∷ documents)) ≡ false
      → lookup provenance_key s.objects ≡ some payload
      → parse_custody json payload ≡ returned entries
      → All (Agrees entries) (d ∷ documents)
      → IsCorpus (sort by_identifier (d ∷ documents)) s
  sorted-IsCorpus d documents entries payload s fresh there parse agree = record {
    some_document =
        not_empty (sort by_identifier (d ∷ documents))
          ((In-sort by_identifier d (d ∷ documents)).0 (inl refl));
    distinct =
        AreDistinct-Differ _
          (sort-Differ (d ∷ documents) (Differ-map (d ∷ documents) (repeats-AreDistinct _ fresh)));
    ordered =
        sort-IsSorted by_identifier (λ a b. text_leb_total a.document_id b.document_id)
          (λ a b c. text_leb_trans a.document_id b.document_id c.document_id) (d ∷ documents);
    side_file = payload;
    entries = entries;
    stored = there;
    parsed = parse;
    agreed = All-sort by_identifier (Agrees entries) (d ∷ documents) agree;
  }
    where
      not_empty : (ds : List DocumentRecord) → In d ds → ds ≢ []
      not_empty (e ∷ ds) i = λ h. cc
      not_empty [] i = absurd i

  checked-IsCorpus :
      (d : DocumentRecord) (documents : List DocumentRecord)
      (entries : List (json.Value × Payload json)) (payload : List ℕ) (s : Shared)
      (o : Outcome Error (List Unit))
      → repeats (map identifier_of (d ∷ documents)) ≡ false
      → lookup provenance_key s.objects ≡ some payload
      → parse_custody json payload ≡ returned entries
      → each (checked_custody json entries) (d ∷ documents) ≡ o
      → Gives IsCorpus
          (value_or_raise (and_then json o (λ _. returned (sort by_identifier (d ∷ documents)))))
          s
  checked-IsCorpus d documents entries payload s (raised e) fresh there parse checked =
      Ensures-raise _ _ _ _ _ s
  checked-IsCorpus d documents entries payload s (returned done) fresh there parse checked =
      Ensures-pure _ _ _ _ _ s (
        sorted-IsCorpus d documents entries payload s fresh there parse
          (each-Agrees entries (d ∷ documents) done (each-Maps _ (d ∷ documents) done checked)))

  parsed-IsCorpus :
      (d : DocumentRecord) (documents : List DocumentRecord) (payload : List ℕ) (s : Shared)
      (o : Outcome Error (List (json.Value × Payload json)))
      → repeats (map identifier_of (d ∷ documents)) ≡ false
      → lookup provenance_key s.objects ≡ some payload
      → parse_custody json payload ≡ o
      → Gives IsCorpus
          (value_or_raise o >>= λ entries.
            value_or_raise (with_custody json (d ∷ documents) entries))
          s
  unfolding with_custody
  parsed-IsCorpus d documents payload s (raised e) fresh there parse = Ensures-raise _ _ _ _ _ s
  parsed-IsCorpus d documents payload s (returned entries) fresh there parse =
      checked-IsCorpus d documents entries payload s
        (each (checked_custody json entries) (d ∷ documents)) fresh there parse refl

  answered-IsCorpus :
      (d : DocumentRecord) (documents : List DocumentRecord) (a : Reply (List ℕ)) (s t : Shared)
      → repeats (map identifier_of (d ∷ documents)) ≡ false
      → Performs (read_object provenance_key) s a t
      → Gives IsCorpus
          (reply_or object_store_error a >>= λ payload.
            (value_or_raise (parse_custody json payload) >>= λ entries.
            value_or_raise (with_custody json (d ∷ documents) entries)))
          t
  answered-IsCorpus d documents (reply payload) s t fresh p =
      parsed-IsCorpus d documents payload t (parse_custody json payload) fresh
        (ap (λ u. lookup provenance_key u.objects) p.1 ∙ p.0) refl
  answered-IsCorpus d documents fault s t fresh p = Ensures-raise _ _ _ _ _ t

  after_documents-IsCorpus :
      (documents : List DocumentRecord) (s : Shared)
      → Gives IsCorpus (after_documents json documents) s
  unfolding after_documents
  after_documents-IsCorpus [] s = Ensures-raise _ _ _ _ _ s
  after_documents-IsCorpus (d ∷ documents) s =
      elim (Bool-cases (repeats (map identifier_of (d ∷ documents)))) [
        | inl again ↦ rw again (Ensures-raise _ _ _ _ _ s)
        | inr fresh ↦ rw fresh (
            Ensures-call _ _ _ _ _ _ s (λ _ _. tt)
              (λ t r a u p. answered-IsCorpus d documents a t u fresh p))
      ]

  read-IsCorpus :
      (a : Reply (List ℕ)) (t : Shared)
      → Gives IsCorpus
          (reply_or object_store_error a >>= λ payload.
            (value_or_raise (parse_documents json payload) >>= after_documents json))
          t
  read-IsCorpus (reply payload) t = by_parse (parse_documents json payload)
    where
      by_parse :
          (o : Outcome Error (List DocumentRecord))
          → Gives IsCorpus (value_or_raise o >>= after_documents json) t
      by_parse (returned documents) = after_documents-IsCorpus documents t
      by_parse (raised e) = Ensures-raise _ _ _ _ _ t
  read-IsCorpus fault t = Ensures-raise _ _ _ _ _ t

  -- Whatever others do: when _read_documents returns documents, there is one, their identifiers
  -- are distinct and ascending, and each has an entry in the provenance file that the object store
  -- holds, with its revision, custodian and source URI.
  pub read_documents-IsCorpus :
      (s : Shared)
      → Ensures Performs (λ _ _. Unit {0}) (λ _ _. Unit {0}) IsCorpus (read_documents json) s
  unfolding read_documents
  read_documents-IsCorpus s =
      Ensures-call _ _ _ _ _ _ s (λ _ _. tt) (λ t r a u p. read-IsCorpus a u)
