-- ===== src/Lib.antt =====
-- DomainRAG Ops answers questions of several tenants ("domains") from their documents with a language
-- model. Each domain has its own collection of chunks in a vector store. A question is embedded, the
-- domain's collection is queried with a filter that is built from the user's clearance, department
-- and groups, the hits become the contexts of the model's answer, and a verifier checks each claim of
-- the answer against the contexts that it cites before the answer is shown. Around this stand the
-- lifecycle of the tenants, the policy for personal data, the approvals to keep it, the indexing of
-- documents, the routing between models and the evaluation that promotes a configuration.
--
-- The parts, with the code that each file models:
--   * Acl.Filter: `_condition_match` and `_payload_match` (packages/rag_core/rag_core/clients/
--     in_memory.py); Acl.Builder: packages/rag_core/rag_core/services/acl_builder.py. Acl.Terms and
--     Acl.Admission compare them with a direct description of who may read a chunk.
--   * VectorStore: `InMemoryVectorStore` (packages/rag_core/rag_core/clients/in_memory.py), a dict of
--     collections as state; one function for each method, with its exceptions as a `Result`.
--   * Retrieval: packages/rag_core/rag_core/services/retrieval_service.py, with
--     `hits_to_retrieved_chunks` (packages/rag_core/rag_core/clients/qdrant_store.py) and
--     `InMemoryReranker`. It takes the store's query and the reranker as parameters; Retrieval.Contexts
--     gives it the modelled store.
--   * Verifier (data, parsing, tier 1, the judge's result), Verifier.Tier2 and Verifier.Answer (tier 3,
--     citations, confidence, gate 2, `run`): packages/rag_core/rag_core/services/verifier_service.py.
--   * Reverifier: packages/rag_core/rag_core/services/citation_reverifier.py.
--   * Tenant: `InMemoryTenantLifecycleService` (backend/app/services/tenant_lifecycle_service.py), with
--     its records in Tenant.Records and its collaborators as effects on a world that may raise.
--   * Pii: packages/rag_core/rag_core/services/pii_service.py, over any detector.
--   * Approval: `InMemoryPiiStorageApprovalService`
--     (backend/app/services/pii_storage_approval_service.py).
--   * Membership: `InMemoryMembershipService` (backend/app/services/membership_service.py);
--     Membership.Current reads from its store what each user has in each domain.
--   * OauthState: `InMemoryOAuthStateStore` (backend/app/core/oauth_state_store.py), with the readings of
--     the clock as arguments.
--   * Jobs, Documents and Chunker: `InMemoryIndexingJobRepository`, `InMemoryDocumentRepository` and
--     `InMemoryChunker` (packages/rag_core/rag_core/clients/in_memory.py).
--   * Chunks: `InMemoryChunkRepository` of the same file, with its rows in Chunks.Rows. Its two dicts share
--     their rows, so both hold references into a store of rows; Chunks.Abstract reads the lists back.
--   * Indexing.Requests (requests and results), Indexing (the embedding, the rows and points of the
--     chunks), Indexing.Steps (the calls
--     of the repositories and the store), Indexing.Storing and Indexing.Modes (the runs):
--     packages/rag_core/rag_core/services/indexing_service.py. A run is an `Effect` on the three
--     repositories and the store, which an exception leaves as they are at that point.
--   * Orchestrator: backend/app/services/indexing_orchestrator.py (its requests in
--     Orchestrator.Requests), whose pending requests are run by
--     the modelled service; the loader of the domain's policy for personal data may raise.
--     DocumentApproval: backend/app/services/document_approval_service.py.
--     It changes the state of Indexing.Steps.
--   * HardDelete: backend/app/services/hard_delete_service.py. HardDelete.Steps takes any collaborators,
--     which may raise; HardDelete.InMemory gives it the repositories, the store and the handler of
--     chat logs that are kept in memory, with the files, the audit row and the ledger as parameters.
--   * Workflow (the state and the nodes of the first check, retrieval and gate 1), Workflow.Generation,
--     Workflow.Searching (configuration, filter, routing, search), Workflow.Logged (the chat log),
--     Workflow.Response (personal data, fallback; `_build_chat_response` of
--     backend/app/services/rag_service.py), Workflow.Verification (from parse_response to gate_2, which
--     call the functions of the verifier) and Workflow.Graph (the routers and edges):
--     packages/rag_core/rag_core/workflows/nodes.py and rag_graph.py. A node is a function on the
--     state; a run of the graph (`run_from`) takes what each node does as a parameter. Its fuel is 22,
--     the length of the longest path. `run_from` is for nodes that return; Workflow.Raising runs the
--     same graph with nodes that may raise, and keeps the chat logs that are written. The path of
--     Workflow.Verification is that of a grounded answer up to gate_2, masking included, with the
--     node detect_conflict_heuristic off.
--   * Evaluation: packages/rag_core/rag_core/evaluation/metrics.py and promotion_gate.py.
--   * Routing: packages/rag_core/rag_core/services/model_router.py.
--   * Dict and Payload: Python's dict and the JSON values of a payload. Prelude: what the parts share.
--   * Tests: the theorems at concrete inputs, and runs of the code.
--
-- Python's floats are a parameter (Prelude.Float) with the laws of IEEE 754 comparisons as a
-- hypothesis where they are used; Tests.Floats fills it with thousandths. The clock, `uuid4`,
-- `round` and the embedder are arguments, so are Python's texts of values that are no text. An
-- `int` that the code never makes negative is a natural number. `lower` and `split` are written
-- out in Prelude.Text; `lower` changes the letters A to Z. Besides the run of the graph, the only
-- loop on fuel is that of the chunker, whose fuel is the number of tokens: each round starts at
-- least one token later, and the theorem on its windows shows that none is lost.
--
-- Not modelled: the Postgres services and repositories, which keep the same rules in SQL; the
-- HTTP API, the rest of its authentication and its schemas; the clients of Qdrant, TEI, vLLM and Ollama; the
-- nodes of the workflow that look for conflicts by patterns or make test items; the
-- regular expressions that find personal data; the generation of assessment items; the frontend,
-- the configuration files and the deployment.
pub mod Prelude
pub mod Dict
pub mod Payload
pub mod Acl
pub mod VectorStore
pub mod Tenant
pub mod Pii
pub mod Approval
pub mod Retrieval
pub mod Verifier
pub mod Jobs
pub mod Reverifier
pub mod Documents
pub mod Chunker
pub mod Evaluation
pub mod Routing
pub mod Chunks
pub mod Indexing
pub mod Orchestrator
pub mod DocumentApproval
pub mod HardDelete
pub mod Membership
pub mod OauthState
pub mod Workflow
pub mod Tests
