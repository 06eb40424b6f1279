-- ===== src/Lib.antt =====
-- ContextRail: the core of the engine in engine/contextrail, which turns a request about a person's
-- access into a governed, audited run.
--
-- A run goes through nine stages in a fixed order. Its actions are judged by a policy engine, and by
-- nothing else: an action is allowed, held for a named person, or refused. Decisions of people come
-- through doors and are stored once, bound to the parameters they were given for. Actions are
-- written through connectors under idempotency keys, read back, and the status of the run is
-- computed from them. Everything is written to one hash chain. Work is done by jobs in a table.
--
-- The files, with the code that each is about, by paths below engine/contextrail:
--   Prelude: library names, Boolean tests and lists over the native numbers.
--   Canonical: canonical.py; `normalise` is `_normalise`, with the digests built on it.
--   Models: models.py; the state machines of actions and runs, the stage order and the case file.
--   Policy: policy/schema.py (Schema), matchers.py, conditions.py, approvers.py and engine.py
--     (Outcomes has `_resolve` and `_time_box`, Engine the rest). Python has the parameters.
--   Audit: audit/chain.py and `append_audit` of repo.py.
--   Connectors: connectors/base.py, state.py and fixture.py: `_apply` and
--     FixtureEntitlements; connectors/once.py (Once).
--   Capsule: capsule.py; the seal of a case file.
--   Rail: rail/discover.py (Discover), compile.py (Compile), govern.py, plan.py, handoff.py, store.py,
--     approve.py (Approve, Dispatch), execute.py, verify.py, finalize.py, events.py and runner.py
--     (World, Continue, Runner); billing.py (Billing).
--   Llm: llm/pricing.py, ledger.py, replay.py and router.py, whose configuration is in Tiers, its
--     failure classes in Failures, its circuit breaker in Breaker and `Router` in Router.
--   Memory: memory.py.
--   Jobs: the job queries of repo.py (Queue) and the worker of jobs.py (Worker).
--   Surfaces: `resolve_actor` (Identity) and `decide` (Cards, Door) of surfaces/door.py.
--   Tests: the theorems at concrete inputs.
--
-- State is passed explicitly: a table is a record of rows, a connector a pair of functions from a
-- state to an answer and a state. A raised exception is `none`, or a constructor of Answer where the
-- code tells exceptions apart. Times are natural numbers: minutes in policies, seconds in jobs.
-- Each transaction of the database is one step; where other workers act between two of them, a
-- theorem quantifies over what they do: `between` in Surfaces/Door, the relation of Jobs/Leases.
--
-- Loops are structural recursion. The attempts of `execute_action` recur on the attempts that are
-- left, which are `max_attempts` at first, so there is no other fuel to run out of. A tier of the
-- model is called at most twice, so its loop is written as a call and a retry. Printing a number in
-- decimal recurs on fuel one above the number, which has fewer digits than that.
--
-- Parameters stand for what the repository does not contain: the text functions of Python that
-- Policy.Python names, json.dumps, sha256 and the date formats of Canonical.Encoder, and `lower` of
-- the database. The models of pydantic are parsed by the parameters `model_validate` and `parse`, the
-- HRIS, the bundle of pages, the corpus of messages and the billing service are records of functions,
-- and the clients of the language model a function from the number of the call to a reply. The door
-- takes `Runner.resume` as a parameter as well, so that it does not depend on Rail/Runner. Money is in
-- microdollars. What a digest binds has as hypotheses that sha256 has different digests for the texts
-- concerned, where these differ, and that json.loads reads them back.
--
-- Not modelled: notes and log texts, waits between attempts, latencies, the polling loop of the
-- worker, HTTP, rendering, prompts and the search in documents; of the rail the heuristic extractor,
-- the constraints that a model extracts, and the first pass of the runner; the HTTP connectors; JSON
-- floats; digits and letter case outside ASCII; the overflow of timedelta; what jsonb changes in the
-- payloads of the audit. A pass of the runner is one sequence of steps at one time, which no other
-- worker interrupts.
pub mod Prelude
pub mod Canonical
pub mod Capsule
pub mod Connectors
pub mod Audit
pub mod Models
pub mod Policy
pub mod Rail
pub mod Llm
pub mod Memory
pub mod Jobs
pub mod Surfaces
pub mod Tests
