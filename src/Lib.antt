-- ===== src/Lib.antt =====
-- SentinelAI v3.0: the core of a payment gateway for AI agents.
--
-- A request to `POST /v1/banking/transfer` (core/gateway.py) passes the security gate, then the
-- idempotency middleware (core/idempotency.py), then the endpoint. The endpoint opens a connection to
-- the ledger (core/database.py), asks the enforcer (security/enforcer.py), which looks the
-- beneficiary up in the ledger and asks the policy server through a circuit breaker
-- (security/opa_client.py, config/opa/policy.rego), asks the Rust core
-- (core/sentinel-core/src/lib.rs) about the hash of the request, and hands the trusted context to
-- the transaction manager (core/transaction.py). That one writes the intent, an outbox event and a
-- record of the audit chain (security/audit_chain.py) in one local transaction, asks the bank, and
-- writes its answer in a second one. A background worker (core/relay.py) publishes the events.
-- verify_chain.py audits the chain, admin_panel.py sets the mode that the gate reads. Beside this
-- path, the audit stage (core/app/stages.py) collects hashes into batches, whose signed Merkle roots
-- (core/crypto_audit.py) go to a witness (siem_service.py). admin_signer.py makes the keys for this
-- and signs the policies that core/trust.py verifies. Apart from this path stand the pipeline of
-- core/app with its stages, whose evaluator the other Rust files of core/sentinel-core would be, the
-- policy engine of execution/policy_engine.py, and the agent endpoint main.py.
--
-- Files:
--   Prelude      lists, Booleans and integers over the native numbers
--   Database     core/database.py: the tables as a record of lists, one function per SQL statement;
--     Connection is an aiosqlite connection (the file, what the open transaction sees, whether one
--     is open), and calls on it as functions from a connection to a result and a connection;
--     Rules and Working have the rules for its statements that may fail, and that do not
--   AuditChain   `append_record` of security/audit_chain.py and `verify_audit_chain` of
--     verify_chain.py; Chain, Appending and Tampering have the theorems
--   Transaction  `TransactionManager` of core/transaction.py: `_append_outbox` is `append_outbox`,
--     the first `try` of `authorize_transfer` is `create_intent` with `existing_or_raise`, the
--     second is `record_answer` in `settle`; Spec says what each local transaction leaves
--   OpaClient    `ResilientOPAClient`; Tasks is its step relation of requests and breaker tasks
--   Enforcer     `DeterministicEnforcer` and the Rego policy
--   Core         `SentinelCore`: `audit_and_verify`, `is_frozen`, `trigger_local_freeze`
--   Gateway      `sync_with_redis` (one round is `sync_round`), `security_gate`, `handle_transfer`,
--     and `set_mode` of admin_panel.py
--   Idempotency  `FinTechIdempotencyMiddleware.dispatch`: the tests before Redis are `admit`, and each
--     awaited command is a case of `step`; Workers interleaves requests with one key
--   Relay        `outbox_relay_worker`: one turn of its loop is `relay_round`
--   Siem         siem_service.py: `/latest` and `/ingest`; `flush_batch` and the turn of `retry_worker`
--     (core/app/stages.py) that post to it, from the Merkle root on
--   Merkle       `build_merkle_root` of core/crypto_audit.py, with a bound on its depth, which the
--     number of hashes meets
--   PolicyEngine  `PolicyEngine.evaluate` of execution/policy_engine.py
--   AuditBuffer  `AUDIT_BUFFER` of core/app/stages.py: the body of `ForensicAuditStage.process` under
--     the lock is `append_event`, that of `periodic_flush` is `flush_rest`
--   Signatures   admin_signer.py and core/trust.py: `sign_policy` and `verify_policy_integrity` on files
--   Scopes       identity/scopes.py: `resolve_agent_scopes`
--   Agent        main.py's `handle_agent_request`, with the cache of core/sub_manager.py
--   RuleEngine   the Rust files engine.rs, models.rs and store.rs: `EvaluationEngine::evaluate` is
--     `evaluate_tool`, the body of its loop `visit`; the loop of `load_from_file` is `group_policies`;
--     Semantics says what conditions mean apart from the engine's tests of them
--   Pipeline     core/app: `ContextFactory.from_http`, the four stages as functions from a run (a context
--     and the audit buffer) to a run, `SentinelPipeline.execute`
--   Transaction.Register  the ledger as a register of payments under keys, and how
--     `authorize_transfer` refines it
--   Service      the whole path of a request: `security_gate` is `gate_of`, the middleware's `dispatch`
--     by its steps, `call_next` the route to `handle_transfer`
--   Siem.Keys    the private key of `MerkleManager`, the public key of the witness, `sign_hash` and the
--     verification in `/ingest`
--   Siem.Sequences  batches flushed one after another, and two flushes that overlap at the `await`
--   AuditTrail   buffer, Merkle roots, flushes, keys and witness put together
--   System       one gateway process with its ledger, from the first start on: Startup is `lifespan` up
--     to its `yield`, Overlaps what requests and the relay do to the ledger while a request waits for
--     the bank, to any depth, Runs the steps (requests, synchronisations, the breaker's tasks, what
--     other calls do to breaker and core, commands of the operator, expiring entries, restarts);
--     Safety, Ledger and Hashes have what all runs keep, Breach what those of one process do
--   Scrub        security/pii_scrub.py: the patterns, `sub`, and a greedy backtracking matcher for what
--     the patterns use of Python's `re`. `many` is bounded by the characters that are left and
--     `sub_from` by the length of the text, which is enough as no pattern matches the empty text
--   Siem.Workers  flushes and the retry worker interleaved at every `await`, with restarts of the gateway
--     and the witness; Fates and Retention say where every payload may be
--
-- Parameters. What the code takes from elsewhere is an argument: `Runtime` has SHA-256 and JSON as
-- functions on texts, the identifiers that uuid4 draws, which statements of a connection fail
-- (`fails`), and what other connections commit while the bank is asked (`others`); the POST to the
-- policy server is a function to its possible replies; RocksDB is the interface `KeyStore` with the
-- laws of get and put. SQLite gives a writing transaction the file alone, so what other connections
-- commit while a payment is made stands between its two local transactions. What they commit between
-- the enforcer's SELECT and the first of them, while the policy server is asked, is not a step of its
-- own in `handle_transfer`. Where a theorem needs that two texts hash apart, its other case is a
-- collision between texts that the code hashes, or it names the hashes that are assumed to differ.
-- One text stands for all readings of the clock, which nothing that is modelled looks at.
--
-- Amounts are integers in cents in place of Python's floats. Columns that nothing reads (created_at)
-- are left out. Not modelled: FastAPI's routing and validation of bodies, log and console output,
-- the end of the lifespan and a start that raises, and core/sentinel-core/src/logger.rs, which only
-- writes a log (security/jailbreak.py is empty). RSA is the interface `Rsa` of Signatures, with what its
-- documentation promises; `ActionFirewall`, which main.py imports and no file defines, is a parameter
-- of the agent endpoint, and `sentinel_core.fast_evaluate`, which the built Rust module lacks, one of
-- the pipeline's stages.
pub mod Prelude
pub mod Database
pub mod AuditChain
pub mod Transaction
pub mod OpaClient
pub mod Enforcer
pub mod Core
pub mod Gateway
pub mod Idempotency
pub mod Relay
pub mod Siem
pub mod Merkle
pub mod PolicyEngine
pub mod AuditBuffer
pub mod Signatures
pub mod Scopes
pub mod Agent
pub mod RuleEngine
pub mod Pipeline
pub mod Service
pub mod AuditTrail
pub mod System
pub mod Scrub
