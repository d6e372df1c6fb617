-- ===== src/Lib.antt =====
-- The control plane of the agent context distribution protocol (src/ of the repository): a service
-- that audits context registries and their transparency logs, issues and revokes tokens, and
-- authorizes and meters requests. This development models its decision procedures and its in-memory
-- state, and proves what they promise each other and their callers.
--
-- The program's parts, and the file that models each:
--   Log: src/audit/log-verify.ts, the verification of inclusion and consistency proofs. Log/Hash:
--   wire hashes, leaf and node hashes (`wireHashToBuf`, `leafHash`, `nodeHash`). Log/Parse:
--   `parseCheckpoint`, `parseInclusionProof`, `parseConsistencyProof`. Log/Proofs:
--   `verifyInclusionPath`, `verifyConsistencyPath`, `isPowerOfTwo`. Log/Merkle: the cursor that both
--   loops move, and the tree that they are about, built layer by layer. Log/Verify: the entry points
--   `verifyInclusion` and `verifyConsistency`, the native fold behind its closed projection.
--   Log/Signature: `verifyCheckpointSignature`, `logIdRegistryDid` and `buildLogLeaf`.
--   Audit/Revocation: src/audit/revocation-verify.ts and src/contracts/revocation.ts, the parse of a
--   key revocation. Audit/Lineage: src/audit/revocation-lineage.ts, the walk of a revocation's lineage
--   (`walkRevocationLineage`), in the steps `walk_response`, `walk_value`, `walk_items`, `collect`.
--   Audit/Receipt: the audit of registry receipts, src/audit/receipt-audit.service.ts over
--   src/audit/receipt-verify.ts, which Audit/Receipt itself models. Audit/Receipt/Service:
--   `auditEvent` and `auditEventInner`, with the structural checks as one function each.
--   Audit/Receipt/Crypto: `verifyCryptographically`, cut at each early return into the steps
--   `by_ctx_id`, `by_base_url`, `by_response`, `by_value`, `by_body`, `by_hash`, `by_producer`,
--   `by_key_id`, `by_registry_did`, `by_receipt_key` and `judge_receipt`, each of which takes what
--   the step before has computed, and `resolveProducerFingerprint`. Audit/Receipt/Classify:
--   `classifyKeyRevocation` and the policy around it. Audit/Receipt/Reaudit:
--   `reauditForFingerprint` and the update of a row in src/storage/receipt-audit.repository.ts.
--   Audit/Receipt/CtxId: the grammar of context ids. Audit/Receipt/Sweep: `sweep` and `toRow`. The
--   lists of flags and notes are a state that each step appends to; a step that throws is `none`,
--   which `auditEvent` turns into an error verdict. Audit/Receipt/Checked, Honest, Gate and the
--   children of Reaudit and Sweep hold the proofs.
--   Cosign: src/audit/cosign.ts, the cosignatures of witnesses (`parseCosignature`,
--   `mintCosignature`, `verifyCosignature`). Cosign/Quorum: `hostEvaluateQuorum`, whose loop over
--   the cosignatures is `consider_all`, and `countHistoricalWitnesses`.
--   Did: src/common/did-authority.ts, the did:web identifier of an authority and back.
--   Witness: src/audit/checkpoint-witness.service.ts, the service that watches the logs of the
--   registries. Witness/Store: its tables (src/storage/log-witness.repository.ts, the inserts of
--   log-cosignature.repository.ts). Witness/Quorum: `consumeQuorumSafe`. Witness/Pass: one pass over
--   a registry, `witnessRegistry` cut at each fetch and each test (`witness_registry`, `at_url`,
--   `checkpoint_reply`, `examine`, `check_bound`, `check_signed`, `compare_head`, `against`,
--   `verify_growth`, `judge_growth`), and the sweep. What the network, the resolvers, the profiles and
--   the clock answer to a pass is the record `Answers`, and so is which call of the database throws.
--   Witness/Moves: what a pass does to the retained heads. Witness/History: any sequence of passes and
--   acknowledgements; an advisory lock keeps passes from overlapping, so that they are in sequence.
--   Witness/Sweep: a sweep as such a history.
--   Policy: src/policy, the layer that authorizes a request. Policy: policy-decider.ts, the
--   contract. Policy/Static: static-rules-policy.decider.ts. Policy/Caching:
--   caching-policy.decider.ts, which stands before another decider; `decide` is its two halves,
--   `begin` before the inner call and `finish` after it, since other calls run between them.
--   Quota: src/quota (quota-config.ts, quota-store.ts, quota.service.ts), the tenants' limits, the
--   in-memory counter with fixed windows, and the check that the guards call.
--   Auth/Challenges: src/auth/in-memory-challenge.repository.ts, the challenges of the login.
--   Auth/Revocations: src/auth/in-memory-revocation.repository.ts, the revoked tokens and the pages
--   of the revocation feed that other issuers poll. A cursor is any number that a peer may send.
--   Auth/Issuer: src/auth/token-issuer.service.ts, the exchange of a challenge for a token
--   (`issueToken` in the steps `consumed`, `with_binding`, `unpinned`, `with_key`, `mint_token`), over
--   the challenges, Auth/PinnedKeys (src/auth/pinned-keys.service.ts), Tenant/Agents
--   (src/tenant/tenant-agents.ts) and Auth/Ledger (src/auth/issuance-ledger.service.ts, the hash chain
--   of decisions). Each read of the clock in an attempt is its own argument, since other work runs
--   between them.
--   Auth/Feeds: src/auth/revocation-feeds.ts, the parser of the peers' feeds. Auth/Poller:
--   src/auth/revocation-poller.service.ts, their poller: the request and the checks of a response
--   (`fetchOnce`), the application of its entries (`applyEntries`) and the cursor (`pollFeed`).
--   Auth/FeedPage reads a page (`normalizeFeedResponse`), and Auth/Poller/Start is `onModuleInit`. A
--   record `Surroundings` holds what the network answers to a poll and which calls of the store throw.
--   Auth/FeedController: src/auth/revocation-feed.controller.ts, the answer that such a poll gets from
--   another control plane, on top of the pages of Auth/Revocations.
--   Auth/Jwt: src/auth/jwt-codec.ts and src/auth/scopes.ts, the verification of a token and its scopes.
--   Auth/Federation: src/auth/cross-issuer-validator.service.ts, which accepts own tokens and those of
--   trusted issuers (`verifyWithProvenance`), and looks each up in Auth/Revocations.
--   Shutdown: src/shutdown.ts and src/shutdown-failures.ts, what a signal of shutdown sets off. The one
--   function `run` of `createShutdownHandler` is cut at each `await` into the stages of a state machine,
--   and what it waits for (the delay, the close, the deadline, the telemetry) arrives as an event, in
--   any order; a dependency is missing, works or throws. Shutdown/Gate wires the drain to it, as
--   src/bootstrap.ts does.
--   Drain: src/shutdown-drain.ts and src/middleware/drain-gate.middleware.ts, the phases of a
--   shutdown and the gate that refuses new requests in the last one.
--   Prelude: shared helpers; Prelude/OrderedMap is a JavaScript `Map` in insertion order.
--
-- How it is modelled. State is a record that an operation takes and gives back; the clock is an
-- argument, in the unit the source reads. A rejected promise or a thrown error is a value of the
-- result. Strings are compared by code points. Numbers are natural numbers; where the source applies
-- a 32-bit operator, the wrap-around is written out. A number of a JSON value is told apart by what
-- `Number.isInteger` and its sign say of it. SHA-256, the canonicalizer, the native binding, the
-- inner decider, `localeCompare`, `JSON.parse`, `Date.parse`, `Number`, `parseInt`, `fetch`, the federation
-- client and the check of an Ed25519 signature are parameters; so is the SDK where it verifies a
-- receipt or classifies a key. Theorems that need it assume that SHA-256 gives
-- 32 bytes, and name a collision as an outcome.
--
-- A theorem that asks for enough polls or events says how many, or which. Fuel: the two inner loops
-- of the proof checks halve an odd, or an even and positive, number `fn` at each round, so `fn` rounds
-- are enough. All other loops are structural.
--
-- Not modelled: the native quorum, whose report is a parameter of the witness; the stores in a
-- database or in Redis, but for the witness's rows and the update of audited rows; HTTP, timers,
-- logging and metrics other than the tallies of the drain; the texts of the messages of an audit; the
-- resolver of did:web documents and the signing of tokens, parameters of the issuer; and the services
-- around these parts (the audits of revocations and of inclusion, webhooks, ingest, run queries),
-- which are loops over the database and remote registries.
pub mod Prelude
pub mod Did
pub mod Tenant
pub mod Shutdown
pub mod Log
pub mod Audit
pub mod Cosign
pub mod Witness
pub mod Policy
pub mod Quota
pub mod Auth
pub mod Drain
