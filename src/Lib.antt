-- ===== src/Lib.antt =====
-- Apartment finder: a model of the services that decide what may be fetched, fetch it, keep what was
-- found, rank it for a search, and tell of changes.
--
-- The parts, and the code that each file is about (paths from the repository's root):
-- - PolicyGate (services/policy_gate): Matrix is policy_matrix.py, with `operations_for` for
--   `allowed_operations`; Repository is repository.py; Service is `PolicyGateService.evaluate`; Tasks is
--   `route_task`. Safety is about what the gate lets through.
-- - Acquisition (services/acquisition): RateLimiter is rate_limiter.py, each method a function of a
--   domain's policy and state and of the readings of the clock that it makes. Queue is
--   `InMemoryQueueAdapter`, Repository is `TaskRepository`, Validation the payload checks, Policy the
--   `_policy_decision` of scheduler and worker, Scheduler `TaskScheduler`, Worker `TaskWorker`,
--   Firecrawl `FirecrawlAdapter`. System is the state that scheduler and worker share, with the monad
--   of actions on it that may raise; `log` is `AuditLogger.log`.
-- - SnapshotStore (services/snapshot_store): Repository and Service; the adapter stores through it.
-- - Facts (services/common/facts.py): Store is `FactStore` and its checks.
-- - Extraction (services/extraction, services/common/evidence.py): Evidence is evidence.py, Materialize
--   is `materialize_candidates` of service.py, which writes to the fact store.
-- - Dedupe (services/dedupe): Changes is `ListingChangeStore`, Bands the thresholds and decisions of
--   `DedupeService`, Clusters its union-find and `cluster`, Canonical the choice of values by
--   `CanonicalizationService`, Publish the changes that it records; scores are values of any ordered
--   type.
-- - Alerts (services/alerts): Repository is `AlertRepository`, Dispatch is `AlertService.dispatch`, Run
--   is `AlertService.run`, which reads the changes that canonicalization records.
-- - SearchSpecs (services/searchspec): Parser is `SearchSpecParser`, Service is `SearchSpecService` with
--   its repository.
-- - Retrieval (services/retrieval): Repository is `ListingRepository` with utils.py, Service is
--   `RetrievalService`.
-- - Ranking (services/ranking): Values is the reading of fields, Hard is `_evaluate_listing`, Scores is
--   `_score`, Rerank is `_build_rerank_payload`, Diversity is `_apply_diversity_caps`, Rank is
--   `RankingService.rank`.
-- - GeoCommute (services/geo_commute): Cache is cache.py, Graph is compliance.py with
--   `OtpGraphManager`; what `os` says of paths is a parameter.
-- - Common: the enumerations, JSON values, texts, the operations on floats. Prelude: lists, dictionaries,
--   orders, sorting, results. Tests: concrete runs.
--
-- The scheduler asks the gate and the limiter and writes to the repository, the queue and the audit
-- log; the worker asks the gate again, takes a slot, calls the handler (the Firecrawl adapter, which
-- stores a snapshot) and concludes.
--
-- Conventions. Times and durations are whole microseconds in ℕ. A dictionary is an association list in
-- insertion order. A task object that several tables share is looked up by its id where the code uses
-- the object, since the repository holds that very object. What uuid4 and the clock return, hashes,
-- pydantic's validation, the printing of enumerations, the Firecrawl client and the delivery adapters
-- are parameters. What `int` and `float` give of a JSON value is a parameter with three outcomes: the
-- number, the TypeError or ValueError that the code catches in most places, and the OverflowError that
-- it catches nowhere. Texts can be encoded as UTF-8, and values given as JSON text. A policy's seconds are floats, as they are declared. Floats are any ordered type with operations of which nothing is assumed. Loops are
-- recursion on lists; only the walk of the union-find to a root is on fuel, one more than the number
-- of decisions, which bounds the depth of its forest. `handled` in `System` records the calls of the
-- handler for the theorems only.
--
-- Left out: the RQ adapter, which only calls the rq package; HTTP routes and the user interface; the
-- providers of geocodes and routes, which are HTTP clients; the extraction of candidates, by regular
-- expressions and HTML parsing; blocking and scoring in dedupe.
pub mod Prelude
pub mod Common
pub mod PolicyGate
pub mod Acquisition
pub mod Extraction
pub mod Dedupe
pub mod Alerts
pub mod Facts
pub mod SnapshotStore
pub mod GeoCommute
pub mod Tests
pub mod SearchSpecs
pub mod Retrieval
pub mod Ranking
