-- ===== src/Lib.antt =====
-- Stewardence (AgentLedger): a verification library for its deterministic core.
--
-- The application is a multi-tenant Django service. Requests write rows in tenant transactions and put
-- jobs in a queue; a worker claims a job under a lease, runs its handler, and completes it behind a
-- fence; one of the handlers seals the tenant's audit events into a chain of Merkle blocks, which the
-- verification reads back; reports read the policy results and the risk score of an inventory.
--
-- Base: shared names and helpers. Numbers are native naturals, Python's int is ℤ of Base.Int,
--   JSON values are Base.Json, and a function that may raise is a Base.Result.
-- Tenancy: src/agentledger/tenancy/context.py. tenant_transaction and transaction.atomic: a body that
--   raises keeps none of its writes. Session settings and row security of PostgreSQL are not modelled.
-- Jobs: apps/jobs. Jobs.Model and Jobs.Table hold the rows of background_jobs and UPDATE with its row
--   count; Jobs.Queue has each statement of queue.py, on the table as a list of rows, the clock and new
--   keys being arguments; Jobs.Queue.Lifecycle runs histories of statements of any number of sessions,
--   in any order. Jobs.Worker is worker.py: the loop of drain_queue runs on fuel, and
--   Jobs.Worker.Termination bounds the turns by the claims that the table still allows, which the cap of
--   five attempts makes finite. A handler is a finite course of heartbeats with a result; it does not write
--   the queue itself, and the other sessions write to it between the statements.
-- Audit: apps/audit. Audit.Merkle is merkle.py, where SHA-256 and rfc8785.dumps are arguments
--   (Primitives: a digest has 32 bytes); root_on runs on as much fuel as the list is long, plus one,
--   since each half is shorter than the whole. Audit.Texts writes digests, UUIDs and times as text; times
--   are microseconds since 1970, and years have four digits. Audit.Store has the three tables of models.py,
--   Audit.Sealing has seal_tenant_audit_events of sealing.py, and Audit.Verification has
--   verify_tenant_audit_history of verification.py. A sealing transaction is one step: the row lock on the
--   chain head keeps two of one tenant apart. The column data is a JSON value, which the cursor of the
--   sealing reads as a text (jsonb_text, loads) and the model of the verification decoded; Audit.Append.Stored
--   says how jsonb may reorder the keys of what it stores. Audit.Append
--   is append.py: the checks of its arguments, the new row, and the job in the queue, in one transaction.
--   Audit.SealJob is jobs.py, the handler that the worker of Jobs runs.
--   Audit.Security is the migration 0002_audit_security.py: what a session's role, tenant and the triggers
--   let a statement do, and histories of statements.
-- Inventory: apps/inventory. Inventory.Model has the row of an item, Inventory.Provenance is provenance.py.
-- Policies: apps/policies. Policies.Effect and Policies.Engine are engine.py on plain values without
--   floats and sets; what a dataclass refuses in __post_init__ is a make_ function. Policies.Registry is
--   registry.py, its dictionary a list of items. Policies.Risk is risk.py: a Decimal with two places is
--   its number of hundredths, so nothing is rounded before the last step.
--   Policies.Context is context.py, and Policies.Accounting has the rules of packs/accounting.py.
-- Credentials: apps/credentials/crypto.py. Credentials.Envelope has the envelope and its associated data,
--   Credentials.Ring the key ring, Credentials.Crypto encryption, decryption and the two rotations.
--   AES-GCM is a parameter with the laws of IsAead; random keys and nonces are arguments.
--   Credentials.Crypto.Vault runs histories of all of them.
-- Reports: apps/reports. Reports.Storage is storage.py: the contract of a private storage as a record of
--   operations (PrivateReportStorage) and of laws (IsPrivateStorage), the local backend on a list of
--   files, the S3 backend on a bucket whose requests may fail, and the settings. Reports.Artifacts is
--   artifact_services.py with the checks of ReportArtifact, over any storage with these laws.
-- Catalog: apps/catalog. Catalog.Normalization is normalization.py, where reading of URLs, addresses and
--   UUIDs, the Unicode tables and idna are a record of functions (Libraries). Catalog.Matching is
--   matching.py, with the row and the save of ProductIdentifier in models.py.
--
-- Not modelled: views, forms, URLs, templates and settings, which only call the core; the other
-- migrations, and TRUNCATE and changes of the schema; the collector for Windows and the renderer, which are separate
-- programs; the services and context of reports, imports, discovery and assessments.
pub mod Base
pub mod Tenancy
pub mod Jobs
pub mod Audit
pub mod Inventory
pub mod Policies
pub mod Credentials
pub mod Reports
pub mod Catalog
