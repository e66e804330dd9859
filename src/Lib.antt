-- ===== src/Lib.antt =====
-- The workspace plane of FairTier: the API that keeps a customer's pipelines, mirrors their
-- definitions into the git repository of the customer's box, and encrypts their credentials.
--
-- The parts and their files:
--   Base           lists, texts, maps, sorting and results that the parts share. A method is a function
--                  from the state to its result and the state that it leaves, also on an error (M);
--                  `best_effort` and `attempt` are the calls whose error is logged or looked at.
--   Model          the records: Pipeline and PipelineRun (workspace/pipeline.go), the bookkeeping of
--                  what was rendered, the files of the mirror, notifications.
--   Crypto         crypto/credentials.go: the key ring and its envelope (Keyring), and
--                  postgres/rewrap.go: the sweep that re-encrypts a column while others save (Rewrap).
--   Postgres       postgres/pipeline.go, import.go, pipeline_ownership.go and the two render stores:
--                  one function for each statement on the state Db. Each statement can fail before it
--                  does anything (the list `faults`).
--   Mirror         workspace/pipelinemirror.go: the file names (Slug), the files that the repo should
--                  hold (Files), `converge` (Converge) and `SyncCustomer` (Sync);
--                  pipelinemirror_import.go (Import) and pipelinemirror_adopt.go (Adopt).
--   Service        workspace/pipeline.go: PipelineService, the handlers that create, update,
--                  delete and restore a pipeline, each with its commit to the repo and the compensation
--                  when that fails, and those that queue a run and take a worker's report (Runs).
--   Poll           workspace/pipeline.go: what the worker polls (Serve), and the customer's Google client
--                  and connections, that are looked up once for a batch (Resolver).
--   Auth           core/auth.go and core/core.go: the callers of the Console (User), the issuers of the
--                  boxes (Issuer), the cache of their keys (Trust) and the internal API (Internal);
--                  workspace/static.go: the workspace that a box serves (Static).
--   Schema         workspace/pipeline_schema.go: the validators of a pipeline's config and credentials
--                  (Sources, Google, DuckDb, Validate) over decoded JSON (Types), with the names that
--                  an upload may have from workspace/filedrop.go.
--   BoxRepo        workspace/boxrepo.go: the paths that the Console's editor takes (Path), its
--                  operations on a box's repos (Editor) and their push mirrors (Mirrors).
--   Sweep          workspace/pipeline_stuck_sweep.go: the sweep over runs that got stuck, tick by tick.
--   FileDrop       workspace/filedrop.go: the names of uploaded files and their tables (Names), and the
--                  operations on an object store and the pipeline's row (Service).
--   Broker         workspace/notification.go: NotificationBroker, the streams that a replica feeds.
--   Tests          runs of the definitions on small inputs, and each theorem at one of them.
--
-- How they interact: a save of Service writes the row and calls the mirror (Sync), which reads the rows
-- from Postgres, renders them and converges the repo through a RepoClient; the box's sweep calls Adopt,
-- which reads the repo and writes rows. World (Mirror/World) is the state of all three: the repo, the
-- database, and the dedup maps.
--
-- Parameters, with what is assumed of them: AES-GCM, base64 and the key id hash (Crypto/Primitives,
-- AreSound); the box's Gitea (Mirror/Effects, IsRepo: while a call runs nobody else commits, a write
-- changes the file of its path alone, a stale sha is refused with an error); the mirror and the
-- grant store that the service calls (Service/Compensation, Steady: they write no row of a pipeline,
-- which the mirror does when it finds a credential file that the box edited); the customer table and
-- the key sets that URLs serve (Auth/Keys, IsHonest: their answers do not change); Gitea's push
-- mirrors (BoxRepo/Single, IsMirrorHost: they are a list); JSON in the credentials of a duckdb
-- source (Schema/Drive, IsCodec: what is encoded decodes to the same entries); JSON of the uploaded
-- files (FileDrop/Rows, IsFileCodec); the stores of OAuth clients and connections (Poll/Resolver,
-- Stores: while a batch is served, an answer depends on what is asked for); golang-jwt, net/url, other
-- JSON, YAML, age, the fingerprint and the validators that the service calls (fields of Jwt,
-- BoxRepoService, Json, Mirror, PipelineService and Poll, nothing assumed). The assumptions are met by
-- the toy instances in Tests.
--
-- All loops run over finite lists, so the functions are structural and there is no fuel. Times are
-- natural numbers, texts are lists of code points. Columns hold plaintext in the mirror's model; Crypto
-- is about the encoding between. `sort` is a verified insertion sort in place of sort.Strings; Go's maps
-- are association lists, which are only ever read by key or in sorted order. In the tables, ids and JSON
-- are texts as they were given: Postgres fails on an id that is no UUID, where the model finds no row,
-- and it normalises JSONB. Rows of one time keep their order, which ORDER BY leaves open.
--
-- Not modelled: commit messages, metrics, spans and log lines; the wording of notifications; in
-- the mirror, the OAuth client resolver and what it calls of FileDrop, which are parameters there;
-- the other reads of the service and its e-mail alert; the transformation plane, the HTTP and gRPC layers,
-- generated code.
mod Base
pub mod Auth
pub mod BoxRepo
pub mod Schema
pub mod Sweep
pub mod FileDrop
pub mod Broker
pub mod Crypto
pub mod Model
pub mod Poll
pub mod Postgres
pub mod Mirror
pub mod Service
mod Tests
