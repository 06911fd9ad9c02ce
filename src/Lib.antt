-- ===== src/Lib.antt =====
-- A model of the services of backend/app: the second-level warehouse with its ledger, the
-- purchase plans and records, the notifications, and the background jobs, with what makes each of
-- them correct.
--
-- Parts.
-- Core is backend/app/core and the shared services: Errors (core/errors.py), Tx
-- (core/database.py: a request is one transaction, and an action that raises leaves no new
-- state), Enums (domain/enums.py), Calendar (the parts of datetime that are used), Quantity and
-- Common (services/common.py).
-- Model is backend/app/models: one record for each modelled table, and the database as a record
-- of the tables. Schemas holds the requests of backend/app/schemas with their constraints.
-- Inventory is services/inventory_service.py: Validate (the checks before a write), Replay
-- (replay_materials), Rows (look-ups, snapshot, event log), Create (create_operation), Update
-- (update_operation and reverse_operation). Ledger states what it means that the quantities of
-- the lines and the balances agree with the ledger; its children are about what a replay does to
-- that.
-- Webhook is services/webhook_service.py: Enqueue (enqueue_event) and Delivery (the worker:
-- _claim_delivery, _finish_delivery, deliver_pending_once, run_delivery_worker). Claims says what
-- a claim takes, Bounds how often a delivery is sent (counted against the attempts left, Budget),
-- Hazards what a credential that cannot be deciphered does.
-- Purchase is services/material_service.py (Numbers: next_purchase_plan_no; Plans: the plans),
-- purchase_request_service.py (Records: moving plans and editing records; Batch:
-- batch_update_purchase_records; Restore: restoring a plan), purchase_record_sync_service.py
-- (Sync: apply_trace_sync) and purchase_plan_cleanup_service.py (Restore: the clean-up; Left:
-- which plans it deletes). Linked is about the references of records to plans.
-- Materials is the stock materials of services/material_service.py and set_policy of
-- services/replenishment_service.py; Drafts is its drafts (Newest: the material code that one
-- takes over), with recent_outbound_consumption of repositories/inventory_repository.py.
-- Jobs is services/excel_export_job_service.py: the rows of the exports and their files; Shape
-- and Restart are about their life.
-- Identifiers is core/identifiers.py: uuid7_string, with the globals of the module as a state;
-- Increasing is about the order of what it gives.
-- Shares is services/share_link_service.py: links that anybody with their token can open; Expired
-- is about their clean-up, Revoked about who ends one.
-- Imports is the reading of tables that are imported: Imports is the cells, headers and batches,
-- Located is about the search for headers, Codes is services/material_code_library_service.py
-- (Parsed and Described: its rows). ImportJobs is services/import_job_service.py with the upload
-- handler of api/v1/material_code_library.py; Exclusive is about one import of a type at a time,
-- with Tasks for the start and the end of one.
-- Access is core/permissions.py, core/security.py and api/v1/auth.py: Integers is int of a text,
-- Versions the If-Match header, Sessions what a credential proves, Login the tokens of a login.
-- MiniProgram is services/mini_program_service.py: its users, whose merging (Merge) and
-- registration (Registered) have theorems of their own; Warehouse is the materials and their
-- status, Warehouse.Outbound the operations that the mini program writes and shows. Purchases is
-- its lists of plans and records, and Wechat core/wechat.py with the exchange of a code. LIKE is
-- a parameter (contains), and so is the comparison of a trimmed column (trimmed_is). Core.Paging
-- is the search terms of services/common.py and the pages of a query, and Core.Responses is
-- core/exception_handlers.py.
-- Purchase.Templates is services/purchase_plan_template_service.py. Imports.Lite is
-- services/lite_inventory_service.py: Numbers is Decimal of a text, Replaced the replacement of a
-- table without equal rows, Agree when two rows are equal and how rows are stored.
-- How the parts interact. create_operation writes an operation, replays the ledger of its
-- materials, and enqueues a notification in the same transaction; the worker sends notifications
-- in its own transactions. A moved plan is copied into a record, so that the clean-up can delete
-- it; a record is restored from its plan, or from the copy.
--
-- State. A function of the services that takes a session is an action Tx Db A: it takes the
-- database and returns a value and the new database, or a failure. The exports and the share
-- links have tables of their own (Exports, Shares, ImportJobs). Row locks order requests and are
-- not modelled: a request runs alone. Rows that the database gives keys take them from counters
-- in Db.
--
-- Numbers. A quantity has one decimal place and is held in tenths: a natural number where the
-- request has it positive, an integer where it can be negative (balances, quantities before and
-- after a line). Versions, keys and times are natural numbers; a time counts microseconds. Text
-- is a list of code points. All recursion is structural; fuel has the decimal digits of a number,
-- where it is the number itself plus one, and the loop of the clean-up, where the number of plans
-- bounds the rounds.
--
-- Not modelled: HTTP routing, the searches of the management interface, workbooks, images, the
-- access tokens and pictures of WeChat, language model calls, and the clients in other languages;
-- these are glue or input and output. What WeChat replies to a login is a parameter (reply).
-- Deciphering credentials is a parameter (decrypt), signing and reading a token are parameters
-- (encode, decode), the hash that identifies a stock material is one (identity_hash), and so is
-- what a chat platform answers (Outcome). The collation of the database is a parameter
-- (same_text) where a login looks for a name and where the operations of a user are listed;
-- elsewhere a query that has no LIKE and trims no column compares texts code point by code point,
-- which tells more texts apart than the database does. What a column Numeric(18, 2) makes of a
-- decimal is a parameter (as_stored).
pub mod Base
pub mod Core
pub mod Model
pub mod Schemas
pub mod Webhook
pub mod Inventory
pub mod Purchase
pub mod Materials
pub mod Jobs
pub mod ImportJobs
pub mod Access
pub mod Imports
pub mod MiniProgram
pub mod Identifiers
pub mod Shares
