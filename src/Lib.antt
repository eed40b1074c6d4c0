-- ===== src/Lib.antt =====
-- Sentinel, a content safety platform: a model of its core logic and the theorems that make it
-- correct. Paths below are from the root of the repository.
--
-- The parts and how they interact. A request is moderated at once by an engine, or submitted as a
-- job: the job service stores the job and publishes an event, a worker takes the event, runs the
-- engine and stores the result, and retries or gives up on a failure. A result that asks for review
-- enters the review workflow, whose repository keeps one audit trail per case. Images pass a
-- boundary that inspects their bytes before any decoder runs.
--
--   Base          lists, Boolean tests, dictionaries, and calls that may raise over a state.
--   Schemas       src/sentinel/schemas/moderation.py; Fields holds its validators, Strip and Again the
--                 theorems on them.
--   Review        src/sentinel/review/: Models (models.py, errors.py), Repository (the protocol),
--                 Repository/Memory and Repository/Ledger (the two repositories of repository.py),
--                 Service (service.py, one definition per method). Chain and Invariant say what a
--                 sound repository is, Steps, Failed and Reach what calls do, Access who may do
--                 what, Durable and Tamper what the ledger file keeps, Intake the queue, Auth the
--                 authorizer of auth.py with its theorem.
--   Distributed   src/sentinel/distributed/: Protocols (protocols.py, errors.py), Adapters
--                 (adapters.py), Service (service.py), Processor (processor.py), Consumer (the loop of
--                 src/sentinel/worker.py, with its theorem). Idempotency, Outcome, Completion, Retry,
--                 Outage and Submission hold the theorems. A job store is a record of operations with
--                 their laws; the in-memory store and Redis over a client both fill it.
--   Multimodal    src/sentinel/multimodal/: Bytes (Python's bytes), Image (image.py, errors.py);
--                 Limits and Total hold the theorems.
--                 Engine is engine.py of that directory, the fusion of text and image;
--                 Fusion holds its theorem.
--   Models        src/sentinel/multimodal/timm_model.py and transformer.py, src/sentinel/ml/
--                 baseline.py and transformer.py, scripts/download_image_model.py: Checksum, Labels,
--                 Load and Predict are the image adapters, Text the text adapters, Download the
--                 script. Declared, Reviewed, Maximum, Scored and Composed hold the theorems.
--   Core          src/sentinel/core/: Trie (trie.py), Normalization (normalization.py), Rules
--                 (rules.py), Engine (engine.py, and src/sentinel/ml/ensemble.py); Threat is
--                 service.py and the in-memory store of src/sentinel/threat_intelligence/.
--                 Trie/Find, Rules/Evaluate, Policy and Catch hold the theorems.
--   Threat        the rest of src/sentinel/threat_intelligence/: Encoder (encoder.py) and Qdrant
--                 (adapters.py); Dimension, Indexed and Campaign hold the theorems.
--   Observability src/sentinel/observability/: Metrics (metrics.py) and Middleware (middleware.py);
--                 Requests holds the theorems.
--   Api           src/sentinel/api/: Reviews (reviews.py), Routes (routes.py), and Http, which both
--                 share. Guard and Refusal hold the theorems on reviews, Queue and Jobs those on
--                 moderation.
--   Runtime       src/sentinel/runtime.py and src/sentinel/distributed/bootstrap.py; Lifespan is the
--                 lifespan of src/sentinel/main.py, Worker the construction of src/sentinel/worker.py.
--   Security      src/sentinel/security/: Config (config.py), Middleware and Headers
--                 (middleware.py), Supply (sbom.py, repository_check.py); Settings, Bounds
--                 and Headers hold the theorems on requests, Order and Shuffled that on lock files.
--   Evaluation    src/sentinel/evaluation/: Cases (cases.py), Gates (gates.py), Attacks
--                 (attacks.py) and Metrics (metrics.py); Corpus, Robust and Slices hold the theorems.
--   Scripts       scripts/: LoadTest (load_test_async.py) and Evaluate (evaluate_adversarial.py,
--                 check_evaluation_gate.py); Counted holds the theorem on the load test.
--
-- The state of a service is passed explicitly: a call is a function from a state to a result or an
-- exception, with the state at that moment. What is read from the clock and from `uuid4` is an
-- argument (`Readings`, `Stamp`). The lock of the review service makes each call one step. SHA-256,
-- JSON, UUID5, Base64, the Kafka and Redis clients, Pillow and the networks, Pydantic's codec,
-- the registry of prometheus_client, the tables of Unicode and the arithmetic on floats are
-- parameters. A score is the bit pattern of a float that is not negative, whose order is that of
-- the floats.
--
-- Fuel: the scan of a JPEG moves at least one byte per round, so that one round more than there are
-- bytes is enough, for the scan and for its fill bytes alike; deliveries of a job are followed for as
-- many rounds as attempts are allowed; a file is hashed in one chunk more than it has bytes. The loop of
-- the load test runs over the rounds that begin before its deadline. `out_of_fuel` and `index_error`
-- are constructors of the exceptions of Image, so that a result never hides them.
--
-- Not modelled: the routing and the assembly of FastAPI, expiry of Redis keys, the text of the
-- Prometheus metrics, the cosine of the in-memory store, the scripts that train, download data or
-- send requests to a running API, and Pydantic's check that a field has its declared type. Neither are
-- errors of what the program stands on where it does not handle them: an error of the operating
-- system in the write of the ledger file, errors of the Redis client, exceptions of a toxicity model or
-- a network, exceptions of Pillow other than those that are caught, and scores out of range. The
-- worker's model is a function of the request, without the state of its threat intelligence. A negative
-- cosine of the in-memory store stands as none, since no threshold is negative.
pub mod Base
pub mod Api
pub mod Schemas
pub mod Runtime
pub mod Review
pub mod Distributed
pub mod Core
pub mod Threat
pub mod Scripts
pub mod Security
pub mod Evaluation
pub mod Models
pub mod Multimodal
pub mod Observability
