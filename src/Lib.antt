-- ===== src/Lib.antt =====
-- The Data Director: a job prepares research data for deposit, records every step in an
-- append-only log, and asks people for decisions on the way.
--
-- The parts and the files that model them:
--
-- * packages/datadirector-contracts, the shared types and rules. Contracts/Primitives has the
--   references and the identifiers (primitives.py), Contracts/Payload the JSON payloads of events,
--   Contracts/Sensitivity the classification lattice (sensitivity.py), Contracts/Events the event
--   record, its construction check and `verify_chain` (events.py).
-- * packages/datadirector/src/datadirector/state. State/Store has the files of a job's log, `load`
--   and `append` with its lock and the steps of its atomic write (store.py); State/Projection has the fold of a
--   log into the state of a job (projection.py).
-- * packages/datadirector/src/datadirector/gate, with gate.py of the contracts. Contracts/Gate has
--   the items, the decisions and what is still open; Gate/Items collects items and records
--   decisions; Gate/Upload leaves out what was excluded, and Gate/Upload/Withheld says which files
--   that are (items.py). Gate/Review folds from the log
--   which output of models waits for a person, and Gate/Review/Claim builds the item for it
--   (review.py, with LlmOutput and what is read of Outcome in agents/base.py).
-- * packages/datadirector/src/datadirector/policy/pep.py is Policy/Enforcement, over
--   Contracts/Policy: which model backend a call may reach.
-- * packages/datadirector/src/datadirector/exposure/ledger.py is Exposure/Ledger, over
--   Contracts/Exposure: the record and the limits of what a model was shown.
-- * packages/datadirector/src/datadirector/api/ownership.py is Api/Ownership, over
--   Contracts/Ownership: owners folded from the log, and the checks of reads and actions.
-- * packages/datadirector/src/datadirector/workflow/effects.py is Workflow/Effects, over
--   Contracts/Intents: an intent and an outcome in the log around each external effect.
-- * workflow/graph.py beside it is Workflow/Graph, and workflow/definition.py Workflow/Definition:
--   the steps of the workflow as nodes and conditional edges, and the graph that runs.
-- * workflow/engine.py beside it is Workflow/Engine: running steps with retries, halting, and
--   rolling back by appending.
-- * packages/datadirector/src/datadirector/retention/sweeper.py is Retention/Sweeper, over
--   Contracts/Retention: which working material may be deleted.
-- * packages/datadirector/src/datadirector/job_handle.py is Job: Job/Items writes gate items to a log
--   and reads them, Job/Log folds the gate and the status of a job, Job/Views what the newest entries
--   say, and Job/Handle is an agent's narrowed view of its job.
-- * packages/datadirector/src/datadirector/api/service.py is Api/Service, with Api/Findings for the
--   findings of a validation and Api/Publish for `deposit`; agents/publication.py beside it is
--   Agents/Publication, the refusals and the attempt that a deposit goes through, and of
--   pipeline.py Agents/Pipeline has what the orchestrator writes for people: items for the gate and
--   answers to drafts of models.
-- * packages/datadirector/src/datadirector/containers, safety.py and archive.py, is Containers: the
--   extraction of archives under limits.
--
-- The event store is the ground of the rest: ownership, attempts and the state of a job are folds
-- of the log that `load` returns, and are changed by `append` alone. The service puts the gate into
-- the log: it folds a gate from it, decides on that by `Gate.resolve`, and appends the decision. The
-- enforcement point and the ledger keep state of their own.
--
-- Names follow the source: `tighten`, `verify_chain`, `load`, `append`, `fold`, `fold_to`. Private
-- functions lose their underscore (`_apply` is `apply`); `ExposureLedger.record` is
-- `record_release`, `JobService.resolve` is `resolve_in_log`,
-- `PublicationAgent.deposit` is `publish`, and `EffectRecorder.attempt` is a function of the body of its `with` block.
--
-- Conventions. A function that may raise returns a `Result`, whose errors are the exceptions of
-- errors.py and Python's own, with no message text. Payloads are JSON values; a read of a missing
-- key gives `null`, as `.get` gives `None`. Times are numbers of seconds.
--
-- Parameters. The digest of an event (SHA-256 over canonical JSON) is a parameter `digest_of`;
-- where a theorem rests on it having no collision, that is a hypothesis on the events at hand.
-- Writing a value as JSON and reading it back is the work of pydantic, and is taken to return the
-- value; reading runs the construction checks again, and the model does too. Parameters as well:
-- SHA-256 over bytes, the decimal digits of Unicode, the probers of external services, the texts
-- of exceptions and of reasons, the decimal text of a number, `str` and lower case of a value, and the body of an
-- attempt; the driver of a repository, the validation of a metadata record, what a path
-- resolves to on disk and whether it is a file.
--
-- Fuel. `fold` recurs on a slice of the log for each compensating event. It runs on fuel one more
-- than the number of events, which is enough where each compensation restores an earlier event;
-- where one does not, the program recurs without end, and the model gives `recursion_error`. The
-- limit that Python sets on the depth of recursion is left out.
--
-- The loops of the graph take a name from the stack in each round and put the target of an edge on
-- it once, so they run on one more than the number of edges, which is always enough.
--
-- Time and effects. The store's clock is the time of a whole operation: two readings of `utc_now` in
-- one operation are one time. A driver or a prober is the answer that it gives; what a call of it does
-- outside the log is not seen. A file that a write has not finished is torn, which no reader takes
-- for an event.
--
-- Not modelled: agents that call language models and their prompts, network clients, the web and
-- command-line surfaces, file formats, and the text of messages.
pub mod Prelude
pub mod Paths
pub mod Contracts
pub mod State
pub mod Gate
pub mod Policy
pub mod Exposure
pub mod Workflow
pub mod Retention
pub mod Containers
pub mod Job
pub mod Agents
pub mod Api
mod Samples
