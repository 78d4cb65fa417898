-- ===== src/Lib.antt =====
-- Verification of Agentic Alpha Studio, the Python package src/alpha_workbench.
--
-- The jobs. `Jobs` models src/alpha_workbench/jobs: a submission becomes a receipt in the repository
-- and a message on the queue, and the worker takes the message and runs its handler.
--   Jobs/Contracts: contracts.py, the requests, receipts and events with their validation.
--   Jobs/Repository and Jobs/Transitions: the methods of `InMemoryJobRepository` in repository.py.
--   Each is an action on the record `Repository` that returns or raises, and leaves the new record.
--   Jobs/Queue: `InMemoryQueue` of dispatch.py; Jobs/Dispatch: `JobDispatcher`, `CancellationToken`
--   and `JobContext`, on the repository and the queue together (`Runtime`).
--   Jobs/Worker: `JobWorker` of worker.py, with `try` and `finally` as functions on outcomes. Its
--   loop `recover` takes fuel, the length of the processing list, which falls by one each round.
--   Jobs/Outcomes, Jobs/Conclude: what each method does, case by case; Jobs/Invariant, Jobs/Creation,
--   Jobs/History, Jobs/Guarantees: the invariant, the step relation and what histories keep;
--   Jobs/Submission, Jobs/Cancelling, Jobs/Service, Jobs/Reports, Jobs/Acknowledge: the dispatcher
--   and the worker.
-- `Platform` holds what the jobs take from Python's runtime: the JSON payloads with their sha256, the
-- encoding of messages, which may raise, floats, the blank test, formatting, and a clock by the number of its reading.
-- The ids of new jobs are arguments; where they must be new, as uuid4 ids are, `IsFresh` says so.
--
-- The orchestrator. `Agents` models src/alpha_workbench/agents/orchestrator.py and
-- orchestrator_runtime.py, with what they use of contracts.py.
--   Agents/Contracts: runs, budgets, actions, events; Agents/Policy: `OrchestratorPolicy` and its
--   tables; Agents/Orchestrator: `RunEventLedger` and `OrchestratorAgent`; Agents/Workflow: the nodes
--   and edges of the graph. Its run takes as fuel the recursion limit that the source passes.
--   Agents/Recorded: what record_action returns, case by case; Agents/Histories, Agents/Guarantees:
--   what histories of a run keep; Agents/Choice: what choose_next answers; Agents/Supersteps: how
--   many nodes a workflow runs.
-- `Engine` holds what they take from elsewhere: the model, the clock and the handlers, which act on a
-- world of any kind, sha256, and pydantic's texts. The failures of the ledger's database are left out.
--
-- The temporal graph. `Graph` models src/alpha_workbench/temporal_graph: immutable snapshots of a graph
-- whose edges hold for a time and are known for a time, and the repository that replays them.
--   Graph/Contracts: contracts.py, the records, an edge's validation, visibility at two clocks;
--   Graph/Validation: `validate_graph`, the validation of a snapshot; Graph/Apart: its loop;
--   Graph/Repository: `InMemoryTemporalGraphRepository`; Graph/Publication, Graph/Selection,
--   Graph/Replay, Graph/Visibility: what publications leave and what replays select and show.
-- `Library` holds floats, dicts of attributes and `repr`; a snapshot's content_sha256 is an argument.
--
-- The versioned records. `Store` models `InMemoryVersionedRepository` of
-- src/alpha_workbench/persistence/repositories.py: put, get, the write of a workspace with its
-- universe, and the listings. Store/Versioned and Store/Listing hold the definitions,
-- Store/Immutability, Store/Pairs and Store/Latest the proofs. The record classes are an argument
-- (`Contracts`), by what the repository reads of a record.
--
-- The supply-chain scenarios. `Scenario` models src/alpha_workbench/graph.py and graph_registry.py.
--   Scenario/Contracts: the edges and the records of a result in models.py; Scenario/Propagation:
--   `SupplyChainGraph.scenario`, its `while` by recursion on fuel; Scenario/Adjacency, Scenario/Fuel:
--   the edges of an entity and the rounds that are enough (`rounds`: a visit with k hops left is one
--   round and those of the visits it may lead to); Scenario/Walks: the walks a shock may take;
--   Scenario/Invariant, Scenario/Search, Scenario/Closing, Scenario/Impacts, Scenario/Strongest: the
--   search against the walks; Scenario/Registry: graph_registry.py, its records, validators and
--   `GraphPublisher`; Scenario/Scoring: `RippleRiskScorer`; Scenario/Publishing: the publisher.
-- `Platform` holds the floats other than NaN, and pydantic's texts; `UnitLaws` and `WeightLaws` name
-- what IEEE arithmetic on [0, 1] and on positive floats gives; `Formats` holds json.dumps and SHA-256.
-- Files are a dict from paths to texts: mkdir, directories and the failures of the disk are left out.
--
-- The historical replays. `Historical` models src/alpha_workbench/historical, on the scenarios.
--   Historical/Records: records.py; Historical/Replay: replay.py, the directory of snapshots and the
--   receipts as a dict from paths to texts; Historical/View: view.py, the graph view of a scenario;
--   Historical/Selected, Historical/Receipts: what a replay selects, uses and writes.
-- `Archive` holds the directory's test, the reading of a snapshot, SHA-256 and the receipt's text.
--
-- The gate and the portfolio. `Gates` models src/alpha_workbench/agents/gatekeeper.py and
-- portfolio.py, but their run methods, which read JSON.
--   Gates/Gatekeeper, Gates/Portfolio: the decision on a backtest report and the paper targets;
--   Gates/Decisions, Gates/Evidence, Gates/Sides: what they guarantee.
-- `Arithmetic` and `Weights` hold the floats with their tests, and the texts of numbers; `OrderLaws`
-- names what the comparisons of finite floats give.
--
-- The candidate graph. `Candidates` models src/alpha_workbench/candidate_graph.py on the registry of
-- `Scenario`: Candidates/Contracts, the relationships and the records; Candidates/Builder,
-- `CandidateGraphBuilder`; Candidates/Counting, Candidates/Bounded, Candidates/Capped, its proofs.
-- `Texts` holds case folding, stripping, search and the slug of a name.
--
-- The factor expressions. `Alpha` models src/alpha_workbench/alpha/dsl.py.
--   Alpha/Expression: the trees, their rendering and size; Alpha/Parser: `_Parser`, by recursion on
--   fuel, three for each token and one more; Alpha/Tokens: the tokens of a tree, and the trees that
--   the language has; Alpha/Sound, Alpha/Complete, Alpha/Parsing, Alpha/Rendering: parsing against
--   them; Alpha/Canonical: the canonical text; Alpha/Typed, Alpha/Lookbacks: the typed validation.
-- `Library` holds the regular expressions, Decimal and float.
--
-- Shared: `Prelude` (tests, keys, lists, texts, the order of values and `sorted`), `Dict` (Python's
-- dict with its insertion order) and `Effects` (exceptions, and actions on an object).
--
-- Not modelled: the PostgreSQL repositories (SQL run by a server), the HTTP API, the providers and
-- adapters (network), the command line, pandas and networkx computations, and the text of reports.
pub mod Agents
pub mod Alpha
pub mod Candidates
pub mod Dict
pub mod Effects
pub mod Gates
pub mod Graph
pub mod Historical
pub mod Jobs
pub mod Prelude
pub mod Scenario
pub mod Store
