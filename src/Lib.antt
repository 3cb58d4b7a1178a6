-- ===== src/Lib.antt =====
-- A model of the core of frappe_wms, a warehouse management app for the Frappe framework, and the
-- theorems that make it correct. Paths are from the repository's root; services/ is
-- frappe_wms/services/.
--
-- The program is a set of services over one relational database. Every movement of stock is a
-- call of `post_entries` (services/stock.py), which writes immutable ledger entries and keeps the
-- balance rows, which are a projection of the ledger; rows of a handling unit that changes its bin
-- without a movement follow it. Outbound work goes from there: an outbound
-- delivery reserves balance rows (services/allocation.py) in the order of a removal strategy
-- (services/removal_rules.py), tasks pick what is reserved (services/task.py) in the sequence of their
-- warehouse order (services/warehouse_order.py), and open quantity of a delivery can be split off
-- (services/delivery_split.py). Numbers of documents come from ranges (services/numbering.py), screens
-- exclude each other by locks in redis (services/locks.py), and a call that the database aborts is
-- run again (services/concurrency.py). Stock that is there changes its identity by posting changes,
-- is corrected by physical counts and by task differences, and is refilled by replenishment requests.
-- Postings that ERPNext has to follow go through a queue of logs (services/erp_sync_queue.py). Trucks
-- come and go by appointments at doors (services/yard.py); deliveries are grouped into waves
-- (services/wave.py), and incoming goods go straight to open deliveries (services/cross_dock.py).
--
--   Base: shared names, tests on native numbers, integers, errors, lists and stable sorting.
--   Stock: services/stock.py and `recompute_measurements` of services/handling_unit.py. Types has the
--     tables, Naming the identity of a row (`_balance_name`), Rows the reads and writes, Owner
--     `_resolve_owner`, Balance `_upsert_balance` and `release_allocation`, Measure the handling units,
--     Posting `post_entries`, Transfer `transfer_stock`, Relocate `relocate_hu_balances`
--     from the list of descendants on. The other files are about what these keep: Steps and Keeps run
--     an invariant through a posting; Reconcile, Conserve, Replay, Bounds, Identity, Source, Resolved,
--     Moves and Follow state it.
--   Removal: services/removal_rules.py; a sort raises an error where a comparison does. Dates says when,
--     Order what the strategies return.
--   Allocation: `allocate_delivery` of services/allocation.py; Candidates is `_candidate_balances`.
--   Numbering: services/numbering.py, lines 7 to 24 and 63 to 100.
--   Locks: services/locks.py, up to `require_free_many`. Held follows a lock through the calls of others.
--   Picking: the allocation part of a confirmed, reversed or short pick in services/task.py.
--   WarehouseOrder: the sequence and the status of a warehouse order.
--   Concurrency: `retry_on_deadlock`.
--   DeliverySplit: `split_outbound_delivery`, up to the documents that the integration with the ERP
--     makes of the split-off lines.
--   Travel: positions and distances of bins, services/travel.py.
--   BinRules: the checks of a destination bin, services/bin_rules.py.
--   ErpQueue: services/erp_sync_queue.py. Operations has what an operation posts and what it writes to
--     the document, Logs the changes of a log, Queue `dispatch`, `run`, `retry_due` and `retry_now`.
--     ERPNext is a state of any type with the functions that the operations call. Order and Calls say
--     what a call does to the logs, History what a sequence of them does, Inline compares a queued
--     posting with one at once, Refused says what follows a refusal.
--   InventoryCount: services/inventory_count.py. Snapshot starts and cancels a count, Record takes what
--     was counted, Variance and Post post it. Blocking is about blocked bins, Outcome about posting.
--   PostingChange: services/posting_change.py. Sides has the two sides of a change, Change the
--     operations; Moved says which rows they move, Guards what a posting and its cancelling do.
--   Difference: services/difference.py. Record books a task's difference, Clearing clears it.
--   Cartonization: services/cartonization.py. Plan has the operations, Total says that all is packed,
--     Rooms and Within that limits are kept.
--   Replenishment: services/replenishment.py. Source finds the row to take from, Request the requests.
--   CycleCount: services/cycle_count.py. Rules has the generators of counts.
--   Yard: services/yard.py. Doors has free and determined doors and `validate_appointment`, Booking the
--     appointments and `create_appointment`, Gate `check_in`, Door the rest of the truck's way.
--     Occupied, Life, Calls and Enter carry an invariant through each call, History through a sequence
--     of them.
--   Wave: services/wave.py. Plan has `split_wave`, `merge_waves` and the automatic release, Generate
--     `generate_waves_from_templates`.
--   CrossDock: services/cross_dock.py. Demand finds and reserves open lines, Plan keeps the plan of an
--     inbound delivery.
--   Determination: services/determination.py. Rules has the rules in the order of their priority,
--     Strategy `_apply_bin_strategy`, Destination `determine_destination_bin`; Allowed and Destined are
--     about the bins that it returns.
--   Tests: the theorems with hypotheses at concrete inputs.
--
-- A quantity is a whole number of millionths: the program rounds to six places where it compares sums
-- (`round(..., 6)`) and leaves a tolerance of one millionth where it compares quantities, which the
-- model keeps. Binary rounding of a float below a millionth is not modelled. A document name or a
-- select value is only compared, so it is a number, with 0 for a blank one; the spelling of a name is a
-- parameter where texts are joined and hashed, and an idempotency key is the list of its segments. An error of the framework rolls the request
-- back, so a function that may throw returns the error or the new state. A table is a list of rows with
-- unique names. The digest of `hashlib`, the clock, the session, the rendering of a number, the names
-- that the framework gives to new rows and the master data are parameters.
--
-- Loops over rows are recursion on the list. The loop of `next_number` runs on fuel, the count of
-- values that the range has left, so that it ends exactly where the loop's own test ends it. The
-- retries run on the number of attempts that are left. A line is packed on as many rounds as its
-- quantity has millionths, since a round packs at least one; a wave is cut into chunks on as many
-- rounds as it has deliveries.
--
-- Not modelled: the row locks that order concurrent requests, permissions beyond whether the user has
-- the role that a call asks for, texts of messages, and the
-- services, API, reports and setup that the files above do not name.
pub mod Base
pub mod Stock
pub mod Removal
pub mod Allocation
pub mod Numbering
pub mod Locks
pub mod Picking
pub mod WarehouseOrder
pub mod Concurrency
pub mod DeliverySplit
pub mod ErpQueue
pub mod InventoryCount
pub mod PostingChange
pub mod Difference
pub mod Replenishment
pub mod CycleCount
pub mod Yard
pub mod Wave
pub mod Determination
pub mod CrossDock
pub mod Cartonization
pub mod Travel
pub mod BinRules
pub mod Tests
