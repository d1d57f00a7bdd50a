-- ===== src/Lib.antt =====
-- fluvius: the workflow engine `navis`, the domain framework, queries, policies, the data layer, and the
-- registries of classes.
--
-- A workflow is a definition (`src/fluvius/navis/engine/workflow.py`) of stages, of classes of steps
-- with their states and transitions, and of hooks. A `WorkflowRunner`
-- (`src/fluvius/navis/engine/runner.py`) is one workflow in memory. Its public methods are actions:
-- each checks that a transaction is open and that the status allows it, changes the runner through a
-- few private methods that queue one mutation each (`src/fluvius/navis/engine/mutation.py`), and runs
-- a hook, which is user code and may call actions again. A `WorkflowManager`
-- (`src/fluvius/navis/engine/manager.py`) takes the queues of a runner and writes them to tables, and
-- a `WorkflowEventRouter` (`src/fluvius/navis/engine/router.py`) leads events to handlers.
--
-- A domain (`src/fluvius/domain/domain.py`) makes commands and processes them in a transaction: the
-- processors of a command, chosen by `src/fluvius/domain/decorators.py`, call actions of its aggregate
-- (`src/fluvius/domain/aggregate.py`) and yield events, messages and responses, which are logged and
-- queued, and handed on after the commit. A query manager (`src/fluvius/query/manager.py`) makes the
-- query of a client, over a resource (`src/fluvius/query/resource.py`, `src/fluvius/query/filter.py`),
-- a query of the data layer (`src/fluvius/data/query.py`). The data layer makes this a statement of SQL
-- (`src/fluvius/data/data_driver/sqla/query.py`), which its driver
-- (`src/fluvius/data/data_driver/sqla/driver.py`) executes in a session; a data manager
-- (`src/fluvius/data/data_manager/manager.py`) reads and writes records through the driver.
--
-- Common: lists over the native numbers, tests (Branch), integers (Int), a stable sort (Sorting), and
--   Python's `dict` as an association list in the order of insertion (Dict).
-- Navis/Status: the enumerations of `src/fluvius/navis/status.py`.
-- Navis/Data: the models of `src/fluvius/navis/engine/datadef.py` (Records), and the mutations, with
--   what `set` does with the fields of one (Mutations). The fields that no code of the engine reads
--   are left out.
-- Exec: methods that may raise. The state stands beside the error, so what was written before a
--   raise is kept, as it is in Python.
-- Navis/Runner: Script has what user code may do, as a tree of its messages, raises and calls of
--   actions, and `Engine`, the class of runners of one definition, with the clock, the UUIDs and the
--   worker as parameters. State is the runner's fields; Primitives its private methods (`_set_state`,
--   `_update_step`, `_add_step`, `mutate` and the others); Progress is `reconcile`; Hooks the
--   decorators of the actions, `run_hook`, `get_state_proxy` and `_transit`; Actions the actions that a
--   proxy offers; Lifecycle those that only a manager calls, `transaction` and `commit`. Moves has
--   the atomic writes of a runner as a relation, and Traces goes through the code of the runner with
--   it; Registry, StepStates, Journal, StatusPaths and Started are about what the moves
--   keep. Starting is about `start`, Faults and Transactions have what raises.
-- Navis/Persist: Defs has `persist` as the list of its table writes, and the database as an interface
--   with laws; Sync and Stored compare the tables with the runner.
-- Navis/Router: Defs has the routing table, `connect_events` and `route_event`; Order and Routing what
--   they do.
-- Navis/Definition: Defs has what a class statement of a step checks and gives, and how the class of
--   the runners of a workflow collects its stages, roles and steps; Classes and Built what holds of them.
-- Navis/Manager: Defs has the manager's two caches over the runners as objects, loading, events and
--   `commit`; Caches what the caches find again.
-- Domain: Entities has the records and what a processor is: a script that yields, raises and calls
--   actions. Handlers has the registration of processors and `_select`; Session a domain with its
--   parameters and what a session writes; Aggregate `command_aggregate`, `action` and `create_event`;
--   Process `process_command_internal`; Commands `create_command`, the policies, `process_command`
--   and what follows its transaction. Frame and Processors are about what these leave alone, Logged,
--   Transactions and Settlement about the log and the events, Overlap and Refusal about commands
--   that overlap, Selection and Created about processors and commands.
-- Query: Statements has `process_query_statement` and `operator_statement`; Resources the presets of
--   filters and `initialize_resource`; Select `process_select` and `process_sort`; Manager the query
--   manager. Permitted and Safety are about the conditions of a query, Built, Initialized and
--   PresetLaws about resources and presets, Guard and Policy about what reaches the data layer,
--   Operators and Pages about keys and pages.
-- Policy: Conditions has the conditions of `src/fluvius/casbin/datadef.py`, Manager `check_permission` and
--   the restriction of `src/fluvius/casbin/manager.py`; the casbin enforcer is a parameter. Meaning
--   and Restriction compare conditions with the expressions of a query, Widest and Asked the
--   restriction with what the policies say, Outcome is about answers.
-- Data: Columns has schemas, `_field` and the tables of operators; Clauses `_build_expression` and
--   `_where_clauses`, with SQLAlchemy's functions as a parameter; Statements `build_select` and the other
--   statements; Errors and Driver the driver, with the database as a parameter; Models and Manager
--   the data manager. Truth has the truth of clauses in SQL and what is relied on of SQLAlchemy. Filled,
--   Meaning, Where and Taken are about the rows that a query takes, Positive and Restricted about
--   policies, Negation about operators, Chosen about columns, Returned, Effects and Writes about
--   tables after a write, Registered and Counts about models and pages. Example is a small database.
-- Helper/Registry, Helper/Lookup: the registries of classes of `src/fluvius/helper/registry.py`, and what
--   they find again; how a name is spelled as a key is an argument.
-- Helper/Values, Helper/Merge: functions of `src/fluvius/helper/genutil.py`; Merging is about merge_order.
-- Navis/Examples and the Tests modules: a small workflow, and the theorems at it.
--
-- A hook runs with a depth that stands for Python's recursion limit: an action nested deeper raises
-- RecursionError, as in Python, and every statement is for all depths, with that raise among the
-- outcomes. Scripts are well-founded, so each hook ends; a hook that does not end is not modelled.
-- Numbers are Python's unbounded integers, and the progress is kept as the quotient of two counts.
--
-- In a domain the data models, the subscribers of signals, the look-up of the root, the log store, the
-- policy manager and the handlers of events and messages are parameters; a log that is written in a
-- transaction is committed at its end or dropped, and a commit does not fail. Python's sets have an
-- order that is a parameter.
--
-- Of SQLAlchemy the laws of conjunction, disjunction, negation and opposite comparisons are hypotheses, in
-- SQL's three-valued logic, and of the database what an accepted update or delete does to its table.
--
-- Not modelled: sessions and connections of a database, native queries, the generated schemas, the worker that tasks are sent to and the clock, which
-- are parameters; logging; the sessions of a domain, what processors write to the state manager, and
-- the decoding of a query from a URL; the arguments that an activity logs; the other packages of fluvius.
pub mod Common
pub mod Exec
pub mod Navis
pub mod Domain
pub mod Query
pub mod Policy
pub mod Helper
pub mod Data
