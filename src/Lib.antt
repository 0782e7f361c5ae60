-- ===== src/Lib.antt =====
-- Capital OS: the ledger, its approvals, and the financial engines.
--
-- The program is a set of tools over one SQLite database. A tool validates its payload, opens a
-- transaction, reads and writes the tables, appends a row to the event log, and commits; an error
-- rolls back. The engines compute from a payload alone.
--
-- Money      domain/ledger/invariants.py, domain/approval/policy.py: an amount is an integer number of
--            ten-thousandths, a `Decimal` a coefficient and its places.
-- Calendar, Text   dates, and the texts that the code compares and sorts by.
-- Exec, Store      exceptions as values; the tables, one record for a row, and actions on them.
--            `transaction` is that of db/session.py. Store.Keeps, Store.Steady and Store.Atomic are
--            the rules by which an action keeps a property of the database.
-- Json       the values of json, and what json and base64 are taken to do.
-- EventLog   observability/event_log.py.
-- Periods    domain/periods/service.py; Lock its theorem.
-- Policy     domain/policy/service.py.
-- Ledger     domain/ledger: Repository, Duplicates, Canonical and Service are
--            `record_transaction_bundle` and what it calls; Balance, Books and Atomic its theorems.
--            Untouched, Inserted, Resolved and Told lead to that of Once. Snapshots and Obligations are the
--            other tools of service.py; Statements and Fulfilled their theorems.
-- Approval   domain/approval: Repository and Service are `approve_proposed_transaction` and
--            `reject_proposed_transaction`; Books, Quorum and Final their theorems.
-- Posture, Debt, Simulation   the engine.py of domain/posture, domain/debt and domain/simulation.
--            Posture.Consolidation is consolidation.py with the validator of its payload in
--            schemas/tools.py; Transfers and Consolidated lead to its theorem.
-- Query      domain/query: Order, Page and Lists are the list queries, Cursor is pagination.py; Sorted,
--            Walk, Complete and Follow lead to the theorems on following the cursors of a query, in
--            Transactions and Obligations.
-- Accounts   domain/accounts/service.py; Chart and Metadata its theorems.
-- Coa        db/coa_importer.py: the search for cycles, with Sets and Acyclic for its theorem;
--            Validation and Payload are `validate_coa_payload`, with Listed and Valid its theorem.
-- Runtime    runtime/execute_tool.py and security/auth.py; FailClosed its theorems.
-- Balances   the balances as of a date, in domain/ledger/repository.py.
-- Reconciliation   domain/reconciliation/service.py; Adjustment its theorem.
-- Fixtures, Tests   concrete inputs, and the theorems at them.
--
-- These paths are under src/capital_os of the repository. A handler is a function of the same name
-- from its payload and the database to a result and the database; its blocks are functions of their
-- own, named for what they do. `uuid4()` counts up; the hash of a payload, the clock, the configured
-- threshold and the security context are fields of `Env`; json and base64, the texts of keys and dates,
-- the text that a transaction's date is stored as, the times that the database stamps on rows and its
-- `SUM` are fields of `Outside`.
--
-- Bounds: the decimal context has 28 digits and rounds half to even. `round_at` tries 31 places past
-- them, and every sum or product of two amounts of 28 digits has at most 56 digits.
-- `quotient_places` tries 60 places, and a quotient of two such amounts has at most 56. The fuel of
-- `digits` is the number itself. A client that follows cursors (`follow`) makes as many requests as its
-- fuel; as many as fill pages of the limit are enough. The search for a cycle has one unit of fuel more
-- than there are entries, and each step down enters an entry that no step entered before.
--
-- Not modelled: the import of a chart once it is valid, profile updates of accounts, the account
-- tree and the queries for one transaction, one proposal and the configuration, the configuration
-- tools, timestamps and durations that only the log stores, NaN and infinite decimals, signed zero,
-- decimals with a positive exponent, the rounding of amounts of more than 15 digits by SQLite's
-- numeric columns, connections and concurrent writers, the interpreter's limit on the depth of
-- recursion, and the transport (HTTP, command line, MCP).
pub mod Base
pub mod Int
pub mod Exec
pub mod Calendar
pub mod Text
pub mod Json
pub mod Store
pub mod EventLog
pub mod Periods
pub mod Policy
pub mod Ledger
pub mod Approval
pub mod Money
pub mod Simulation
pub mod Posture
pub mod Coa
pub mod Debt
pub mod Fixtures
pub mod Query
pub mod Balances
pub mod Reconciliation
pub mod Accounts
pub mod Runtime
pub mod Tests
