-- ===== src/Lib.antt =====
-- Coldline is a service that accepts sensor readings, processes those out of range in the
-- background, stores documents, and answers questions over them under access control. This library
-- models its Python core and shows what its parts guarantee.
--
-- Asynchronous code is a tree of calls (Effects): each await of a statement, a command or a
-- provider is one call, the program goes on with any answer, and an exception is a value.
-- Effects.Guarantee says which calls a program makes, Effects.Interference what holds while others
-- change the shared state between the calls, Effects.Failure which errors may leave a program, and
-- Effects.Pool runs any number of programs in any interleaving. A statement of asyncpg fails with
-- a PostgresError, an OSError, or what is neither, here an InterfaceError, where the code tells
-- them apart, and with one error of the driver elsewhere. A component says by a relation Performs
-- what its database or stream does for each call; after a fault a statement may or may not have
-- been done.
--
-- Exception processing: Exceptions.Calls and Exceptions.Repository model
-- src/adapters/persistence/postgres.py (create, transition as the compare-and-set UPDATE, and
-- _record, which validates the reading of a row again), Exceptions.Queue
-- src/adapters/queue/redis_streams.py, Exceptions.Accept src/api/use_cases.py
-- (ReadingApplication.accept), Exceptions.Process src/worker/use_cases.py, Exceptions.Model
-- src/adapters/model/deterministic.py (the summary that the worker stores) and Exceptions.Runtime
-- src/worker/runtime.py (one turn of the loop, and the loop for any number of turns). The API and
-- the workers share the table exceptions and the stream; Exceptions.Lifecycle is the system of
-- both. Exceptions.Run runs one program with given answers.
--
-- Retrieval: Domain.Access models the labels, constraints and the rule readable
-- (src/domain/access.py, src/domain/repositories.py, src/domain/tenant_authorization.py),
-- Retrieval.Policy src/api/access_policy.py, Retrieval.Clause, Retrieval.Calls and
-- Retrieval.Search src/adapters/retriever/postgres_hybrid.py, Retrieval.Fusion
-- src/domain/fusion.py, Retrieval.Workflow and Retrieval.Orchestration
-- src/api/retrieval_workflow.py and src/api/retrieval_orchestration.py. The policy makes a
-- constraint, the retriever writes it into each query, fuses the two arms and returns the evidence
-- of the stages, and the workflow selects candidates and assembles a context.
--
-- Idempotent writes: Idempotency.Store models src/adapters/persistence/idempotency.py and
-- Idempotency.Handler src/api/idempotency.py. Idempotency.Ownership says which request owns a key:
-- the one whose INSERT returned the row, until it completes or releases it.
--
-- Documents: Domain.Embedding models src/domain/embedding.py and Domain.Chunking
-- src/domain/chunking.py. Documents.Repository models the save and the read of one document of
-- src/adapters/persistence/document_repository.py, with the transaction of its connection as a
-- list of pending rows, Documents.Listing the reads of many rows, and Documents.Service
-- src/api/document_service.py, which chunks a document and saves it. Documents.Run runs one
-- program with a database that does what each statement asks.
--
-- Corpus and object storage: Storage.S3 models src/adapters/object_store/s3.py and
-- Storage.Provision the wait for object storage and the upload of the corpus in
-- src/api/initialize.py. Corpus.Lines, Corpus.Reading and Corpus.Loader model
-- src/adapters/persistence/corpus_loader.py, which reads what was uploaded, checks it against its
-- custody file and writes it into the tables.
--
-- Routes: Routes models the handlers of src/api/routes.py around all of the above,
-- Routes.Retrieval also src/api/experiment.py, and Routes.DocumentsV2 the route of
-- src/api/extensions/api_v2.py, which runs the creation of a document under the idempotency
-- handler; Routes.DocumentsV2.Once runs it with a database that does what each statement asks. An
-- error that a handler does not catch leaves it.
--
-- Numbers and texts: a str is the list of its code points, a timestamp a count of microseconds. A
-- double that is only compared is NaN, infinite or a whole multiple of 2^-1074 (Base.Floats); the
-- scores of the fusion are non-negative doubles, and each operation on them rounds to 53 bits
-- (Base.Arithmetic), where 2100 halvings reach every double; Base.Subtraction is the difference of
-- any two doubles, overflow included. In Domain.Embedding a bucket is a whole number until it is
-- divided by the norm, and the root and the quotient are rounded once each. The worker loop takes
-- a number of turns and the listing of keys a number of rounds, for which the pages that are
-- served are enough; range(0, n, step) takes n steps, for which a positive step is enough; claim
-- makes its three attempts, and the wait for object storage its thirty.
--
-- Parameters, for code that is not modelled: the patterns of the redaction, str.casefold, blake2b,
-- uuid5, the decoders of UTF-8 and JSON, the validation of a parsed document, the format of a
-- timestamp, and the dump of a payload. A payload and a JSON value are kept as texts, but in
-- Corpus, where they are the values of the parameter Json. The retriever takes the vector of a
-- query as a parameter, which Routes.Retrieval.Errors fills with that of Domain.Embedding.
--
-- Not modelled: spans, metrics and log lines, and the notes of the stages, which no code reads;
-- configuration and the wiring of the processes; the collation by which PostgreSQL orders
-- identifiers; Redis itself, PostgreSQL and S3 beyond what the code sends them.
pub mod Base
pub mod Effects
pub mod Domain
pub mod Exceptions
pub mod Retrieval
pub mod Storage
pub mod Corpus
pub mod Routes
pub mod Idempotency
pub mod Documents
