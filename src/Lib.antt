-- ===== src/Lib.antt =====
-- Manu: a knowledge engine that ingests technical sources and answers with evidence.
--
-- ingestion (Ingestion.antt and below) is internal/ingestion. A bundle becomes a durable job; workers
-- claim jobs under a lease, move them through stages, and end them.
-- - Ingestion/Job.antt: the job record, states, stages, counters and diagnostics of jobs.go;
--   Job/Validate.antt is Job.Validate, Job/New.antt is NewJob, Job/Stage.antt the order of stages
--   and counters, Ingestion/Text.antt the accepted identifiers, codes, digests and UUIDs.
-- - Ingestion/Store.antt: MemoryStore with Create and Get; Store/Lease.antt has Claim, Heartbeat and
--   ResumePartial, Store/Progress.antt AdvanceStage, Complete, Partial, Fail and Cancel,
--   Store/Selection.antt the choice that Claim makes and the order of Snapshot.
-- - Store/Steps.antt: what an operation may do to the jobs, as a relation; the modules below it show
--   that each operation does that and no more. Store/Consistency.antt is about the store as
--   a whole, Store/Invariant.antt and Store/Evolution.antt go on to lists of requests.
-- - Ingestion/Executor.antt: process, runOnce and RunOnce of executor.go over the port JobStore;
--   Executor/Options.antt is NewExecutor and workerOwner, Executor/Workers.antt the loop of a worker round by round,
--   Executor/Recorded.antt the executor over MemoryStore. What happens to the store while a handler
--   works is a list of events: ticks of the heartbeat, and acts of others.
--   Executor/Pool.antt is what Run returns.
--
-- derivation (Derivation.antt and below) is internal/derivation. Registered rules run over the facts
-- of one snapshot until nothing new comes out, or a limit is met. The facts are those that an
-- ingestion stores; the two parts share no state.
-- - Derivation/Facts.antt: the facts of internal/fact, their copies and order; Derivation/Run.antt the
--   errors, and a run as it polls its context.
-- - Derivation/Batch.antt: acceptCandidateBatch; Derivation/Executor.antt: prepareInputs, the loop,
--   DeriveWithLimits and Derive; Derivation/Registry.antt: NewRegistry and Register.
-- - Derivation/Loop.antt: an invariant of the iterations is one of the loop; Growth.antt,
--   FixedPoint.antt, Ending.antt and Soundness.antt are about what a run adds, where it stops, that
--   it stops, and what its result stands for.
--
-- query (Query.antt and below) is internal/query: how the items of a context are selected, how relations
-- are added to a selection with the items that they need, and the gate that an answer has to pass
-- before it is generated. The gate shares no state with the others.
-- - Query/Abstention.antt: DecideAbstention of abstention.go.
-- - Query/Context.antt: scopes, limits, items and locators of context.go; Query/Context/Validate.antt
--   checks them; Query/Utility.antt, Candidate.antt and Result.antt have the configuration, the request
--   and the audited result of context_selection.go, each with what validates it.
-- - Query/Greedy.antt: the marginal utility, the pass and the loop of SelectContext;
--   Query/Selection.antt the rest of SelectContext.
-- - Query/Selection: Pass.antt, Flagged.antt, Tracked.antt and Loop.antt are about the loop,
--   Identity.antt, Preparation.antt and Audits.antt about what is audited, Configuration.antt,
--   Checks.antt and SelfCheck.antt about the check of the result, Outcome.antt and Maximal.antt about
--   the result.
-- - Query/Relation.antt: ContextRelation of context.go, and the candidates and the order of
--   context_support_closure.go; Query/ClosureState.antt the request, the audits and the result;
--   Query/Closure.antt the loop of CloseContextSupport, which adds relations to a selection;
--   Query/ClosureResult.antt the checks of a result, Query/Closed.antt those against a request and
--   CloseContextSupport itself.
-- - Query/Closed/Support is about a relation and what it needs, Query/Closed/Aligned.antt about what
--   the loop leaves for each candidate; Audited.antt, Agreed.antt, Related.antt and SelfCheck.antt
--   beside it are about the check of the result, Composed.antt about a selection that is closed.
--
-- source (Source.antt and below) is internal/source, of which path.go says what paths and patterns a
-- discovery accepts.
-- - Source/Segments.antt and Source/Match.antt: what it uses of the standard library; Source/Path.antt
--   the relative paths and the validation of patterns, Source/Glob.antt matchSlashGlob and the
--   sensitive, included and excluded paths.
-- - Source/Confinement.antt is about the accepted paths, Source/Patterns.antt about the patterns.
--
-- Strings are lists of bytes, instants natural numbers from Go's zero time, integers mathematical
-- integers with the 64-bit wrap of the attempt counter written out. A mutex makes a store operation
-- one step, so an interleaving of workers is a list of requests. Random bytes and the clock are
-- arguments. The text of an error is left out; its sentinel is kept. A float64 is a value of any type
-- with the operations that the code applies, of which named laws are hypotheses. A slice that is nil
-- and one that is empty are one list.
--
-- Only the loop of DeriveWithLimits needs fuel, for a rule may return new facts for ever: with a
-- limit on iterations one more than the limit is enough, and without one the code may not return.
-- The loop of SelectContext has the item limit as its fuel, for each round adds one item.
-- The other loops go down a list. A rule is a function of the facts that it sees; a handler is
-- known by what it returns and by what happens to the store in the meantime.
--
-- Not modelled: what other packages validate of the payload of an item, which is a parameter; the
-- texts of coverage and gaps of a derivation, for which the limit codes stand; the file system; SQL,
-- HTTP, the command line, the analyzers' lexers, the providers and the evaluation harness, which are
-- input and output around the modelled core.
pub mod Base
pub mod Ingestion
pub mod Derivation
pub mod Query
pub mod Source
