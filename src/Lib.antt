-- ===== src/Lib.antt =====
-- SafeOps: the authorization core of the API service (apps/api/app/).
--
-- An AI agent asks for a tool call. `ToolGateway.execute` checks the agent, the execution, the
-- tool, the arguments and the permission; asks the policy engine where the permission is
-- CONDITIONAL; asks the risk engine in every case; and then runs the tool, refuses the call, or
-- parks it behind an approval. Every step of it is recorded in an append-only audit log, whose
-- sequence numbers other writers may take first.
--
-- Where the parts are:
--   Prelude      library names passed on, Booleans on the native numbers, lists, texts, integers
--   Json         JSON values with Python's `==`, and decimals as `Decimal(str(value))` reads them
--   Model        models/: `Enums`, the rows (`Rows`), and the database that the services share
--                (`Db`): tables, clock, supply of UUIDs, and the rival transactions to come
--   Exec         a service call, as a function from the database to an outcome and a database;
--                what was committed before an exception stays committed
--   Audit        services/audit.py, `commit_chunk`; `Audit.Tables` says how the log changes
--   Policy       `Policy.Conditions` is services/policy_conditions.py, one function for each of
--                the source's; `Policy.Engine` is services/policy_engine.py
--   Risk         `Risk.Config`, `Risk.Signals` (with `Risk.Normal`) and `Risk.Engine` are
--                services/risk_config.py, risk_signals.py and risk_engine.py
--   Approval     services/approval_engine.py: `Create` (`create_approval`), `Expire`
--                (`_lazy_expire` and the compare-and-set), `Run` (`_execute_approved_action`,
--                `_finalize_execution_outcome`) and `Entry` (`_resolve`); the other children hold
--                proofs
--   Gateway      services/tool_gateway.py: `Tooling` (what it is given and gives back), `Record`
--                (`_execute_and_record`), `Escalate` (`_finalize_risk_block`,
--                `_create_approval_and_commit`), `Assess` (`_assess_risk_and_finalize`), `Permit`
--                (`_handle_conditional`, `_handle_direct_allow`) and `Entry` (`execute`); the
--                other children hold proofs
--   Planner      services/planner.py: what a planner is given and may answer
--   Runtime      services/agent_runtime.py: `Results`, `Lease` (`_claim_stepping`,
--                `_release_stepping`), `Steps` (`_load_history`, `_claim_step`, `_finalize`),
--                `Call` (`_run_tool_call_step`), `Advance` (`_fail_max_steps_exceeded`,
--                `_advance`), `Pending` (`_resolve_pending_step`) and `Entry` (the public
--                operations); the other children hold proofs
--   External     services/external_action_service.py: `Request` (schemas/external_action.py,
--                core/canonical.py), `Outcome` (`_find_matching_step`, `_sync_from_step`) and
--                `Entry` (`submit`, `get_status`); the other children hold proofs
--   RateLimit    core/rate_limit.py: one bucket
--   Tools        tools/: `Payments` is tools/payments.py, a refund against refunds that others
--                commit (`Cases`, `Sound` and `Repeat` hold proofs), and `Deploy` is the deployments
--                of tools/devops.py (`Once` holds proofs)
--   System       sequences of operations of all these services, with time going by
--   Tests        concrete stores and calls
--
-- A call that the gateway parks waits as an approval request. An operator's decision claims the
-- request by a compare-and-set on its status and deadline; only then is the call run. The agent
-- runtime drives an execution: one worker at a time, under a lease in the execution's row, asks the
-- planner for the next action, writes it down as a step with the next number, calls the gateway and
-- ends the step; the number of steps is bounded. Another system submits single actions by the external
-- action service, which keeps a row for each request id, so that a retry is answered and not run
-- again.
--
-- How the model reads the code. A transaction is one function: the rows that a builder returns are
-- inserted all or not at all, and an audit event that repeats (execution_id, sequence) makes the
-- commit fail. Between the read of the last sequence number and the commit, the next rival
-- transaction of the schedule `rivals` may commit events, steps and external requests of its own, move an execution's or
-- a request's status, and take or free a lease; that is how concurrency enters, so a statement over
-- all databases is one over all such schedules. `commit_chunk` makes five attempts, as the source does, and then raises.
-- Scores, sequence numbers and times are natural numbers, which Python's unbounded integers are;
-- priorities are integers. The clock stands still during one call. Conditions and JSON values
-- recurse on their structure, so nothing needs fuel.
--
-- Parameters. A tool is a record of a validation and a run on the tools' own tables, which it
-- commits or rolls back itself, as apps/api/app/tools/ does; the registry is a function from names
-- to tools. A planner is a function of the execution, the context and the history to a decision, an
-- exception or a malformed answer. MAX_EXECUTION_STEPS and LEASE_TTL are the fields of `Settings`. The
-- SHA-256 of a JSON value's sorted text is a function from JSON to text.
--
-- Not modelled: HTTP routing, schemas, authentication, the tools that only read, logging, metrics, the demo integrations and
-- the web front end, which are glue around these services; the demo's scripted planner; texts that are only displayed (titles
-- and descriptions of incidents). A UUID that the source draws anew on each attempt of a commit is
-- drawn once. Lower-casing covers ASCII, to which
-- the phrase lists belong. Decimals are read from ASCII digits and with any exponent, where Python's
-- Decimal also reads other digits and refuses huge exponents.
pub mod Approval
pub mod Audit
pub mod Exec
pub mod External
pub mod Gateway
pub mod Json
pub mod Model
pub mod Planner
pub mod Policy
pub mod Prelude
pub mod RateLimit
pub mod Risk
pub mod Runtime
pub mod System
pub mod Tests
pub mod Tools
