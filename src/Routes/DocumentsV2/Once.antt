-- ===== src/Routes/DocumentsV2/Once.antt =====
-- A first version 2 request and a retry of it, alone with a database that does what each statement
-- asks.
use ai_system_engineering_cu.Base.{
  ℕ, ◌≡◌, refl, ◌∙◌, ap, Bool, Option, none, List, Text, lookup, lookup-put_self, text_eq,
}
use ai_system_engineering_cu.Effects.{Outcome, returned, raised}
use ai_system_engineering_cu.Domain.Documents.{ChunkRecord}
use ai_system_engineering_cu.Documents.Calls as documents
use ai_system_engineering_cu.Documents.Run as documents_run
use ai_system_engineering_cu.Documents.Run.{run-bind, run-bind_raised}
use ai_system_engineering_cu.Documents.Service.{create_document}
use ai_system_engineering_cu.Idempotency.Calls.{operation_error}
use ai_system_engineering_cu.Idempotency.Handler.{
  Answered, required_key, run, run_key, by_key, after_operation,
}
use ai_system_engineering_cu.Routes.DocumentsV2.{
  Action, DocumentV2Request, DocumentV2Response, documents_operation_id, operation_v2, on_documents,
  create_document_v2,
}
use ai_system_engineering_cu.Routes.DocumentsV2.Replay.{Both}
use ai_system_engineering_cu.Routes.DocumentsV2.Run.{run_both, as_operation, run_both-on_documents}
use ai_system_engineering_cu.Routes.DocumentsV2.Steps.{
  open_row, put_row, answered_once, replayed_once, done, released, response_of, guarded, completes,
  releases, claims_first, replays,
}

module _ (casefold : Text → Text) (blake2b : Text → ℕ → ℕ) (kept : DocumentV2Response → Text)
    (dump encode loads : Text → Text) where
  abbrev route : Bool → DocumentV2Request → Option Text → Action Answered
  route = create_document_v2 casefold blake2b kept dump encode loads

  first :
      (now : ℕ) (available : Bool) (payload : DocumentV2Request) (key : Text) (s : Both)
      (chunks : List ChunkRecord) (d : documents.Shared)
      → lookup key s.0.claims ≡ none
      → documents_run.run (create_document casefold blake2b available payload.document) s.1
        ≡ (returned chunks, d)
      → guarded dump encode loads now
          (on_documents (operation_v2 casefold blake2b kept available payload))
          key
          (run_key dump encode loads documents_operation_id key)
          s
        ≡ (
          returned (answered_once encode (kept (response_of payload chunks))),
          (done dump now key (kept (response_of payload chunks)) s.0, d),
        )
  unfolding operation_v2
  first now available payload key s chunks d absent ran =
      let operation = operation_v2 casefold blake2b kept available payload in
      claims_first dump encode loads now (on_documents operation) key s absent
      ∙ run_both-on_documents now operation _ (put_row key (open_row now) s.0, s.1)
      ∙ ap
          (λ (r : Outcome documents.Error (ℕ × Text) × documents.Shared).
            guarded dump encode loads now (on_documents operation) key
              (after_operation dump encode loads documents_operation_id key (as_operation r.0))
              (put_row key (open_row now) s.0, r.1))
          (run-bind (create_document casefold blake2b available payload.document) _ s.1 d chunks
            ran)
      ∙ completes dump encode loads now (on_documents operation) key _ d _ (lookup-put_self key _ _)

  failed :
      (now : ℕ) (available : Bool) (payload : DocumentV2Request) (key : Text) (s : Both)
      (e : documents.Error) (d : documents.Shared)
      → lookup key s.0.claims ≡ none
      → documents_run.run (create_document casefold blake2b available payload.document) s.1
        ≡ (raised e, d)
      → guarded dump encode loads now
          (on_documents (operation_v2 casefold blake2b kept available payload))
          key
          (run_key dump encode loads documents_operation_id key)
          s
        ≡ (raised operation_error, (released now key s.0, d))
  unfolding operation_v2
  failed now available payload key s e d absent ran =
      let operation = operation_v2 casefold blake2b kept available payload in
      claims_first dump encode loads now (on_documents operation) key s absent
      ∙ run_both-on_documents now operation _ (put_row key (open_row now) s.0, s.1)
      ∙ ap
          (λ (r : Outcome documents.Error (ℕ × Text) × documents.Shared).
            guarded dump encode loads now (on_documents operation) key
              (after_operation dump encode loads documents_operation_id key (as_operation r.0))
              (put_row key (open_row now) s.0, r.1))
          (run-bind_raised (create_document casefold blake2b available payload.document) _ s.1 d e
            ran)
      ∙ releases dump encode loads now (on_documents operation) key _ d operation_error
          (lookup-put_self key _ _)

  -- What the route does at the time `now` and, for a second request, at the time `later`, by what
  -- the creation of the document gives.
  abbrev pub AnswersOnce :
      (now later : ℕ) (available available' : Bool) (payload payload' : DocumentV2Request)
      (header header' : Option Text) (key : Text)
      → Both
      → Outcome documents.Error (List ChunkRecord) × documents.Shared
      → Type 0
  AnswersOnce now later available available' payload payload' header header' key s
        (returned chunks, d) =
      (run_both now (route available payload header) s ≡ (
        returned (answered_once encode (kept (response_of payload chunks))),
        (done dump now key (kept (response_of payload chunks)) s.0, d),
      ))
      × (run_both later (route available' payload' header')
            (done dump now key (kept (response_of payload chunks)) s.0, d)
          ≡ (
            returned (replayed_once dump loads (kept (response_of payload chunks))),
            (done dump now key (kept (response_of payload chunks)) s.0, d),
          ))
  AnswersOnce now later available available' payload payload' header header' key s (raised e, d) =
      run_both now (route available payload header) s
      ≡ (raised operation_error, (released now key s.0, d))

  -- With a database that does what each statement asks, and two requests with a key that has no
  -- row: if the creation of the document gives chunks, the first request answers 201 with the new
  -- response and leaves the completed row of the key, and the second, whatever it carries and
  -- whenever it comes, changes nothing and answers 201 with the recorded body, marked as replayed.
  -- If the creation fails, the first request fails, and the row of the key is removed.
  pub create_document_v2-Once :
      (now later : ℕ) (available available' : Bool) (payload payload' : DocumentV2Request)
      (header header' : Option Text) (key : Text) (s : Both)
      → required_key header ≡ returned key
      → required_key header' ≡ returned key
      → lookup key s.0.claims ≡ none
      → AnswersOnce now later available available' payload payload' header header' key s
          (documents_run.run (create_document casefold blake2b available payload.document) s.1)
  unfolding create_document_v2 run by_key
  create_document_v2-Once now later available available' payload payload' header header' key s named
        named' absent =
      by_result
        (documents_run.run (create_document casefold blake2b available payload.document) s.1) refl
    where
      by_result :
          (r : Outcome documents.Error (List ChunkRecord) × documents.Shared)
          → documents_run.run (create_document casefold blake2b available payload.document) s.1 ≡ r
          → AnswersOnce now later available available' payload payload' header header' key s r
      by_result (returned chunks, d) ran = (
        rw named (first now available payload key s chunks d absent ran),
        rw named' (replays dump encode loads later _ key _ _ now (lookup-put_self key _ _)),
      )
      by_result (raised e, d) ran = rw named (failed now available payload key s e d absent ran)
