-- ===== src/Lib.antt =====
-- Vrindavan's backend of stock and trade: a verification library.
--
-- The program is an ERP backend (backend/, NestJS on PostgreSQL through Kysely). Its inventory keeps
-- a ledger of stock movements and, for every product, warehouse, rack, location and batch, one row of
-- current stock. Documents (transfers, adjustments, physical verifications, damaged stock, returns)
-- are drafted and then approved; approving posts movements by one helper, `postStockMovement`, which
-- inserts a row of the ledger, and a trigger of the database moves the balances. Reserved and blocked
-- entries hold part of a balance by triggers of their own. Services call the repositories and answer
-- for their errors with HTTP exceptions. Sales and purchase have quotations, orders, notes of what is
-- delivered or received, invoices, payments and returns: a note moves stock by the same helper and
-- counts towards the lines of an order, and a payment is allocated to invoices.
--
-- The files, and what they model:
--   Base        shared names, Boolean tests, and tables as lists of rows (`Base/Lists`).
--   Exec        `async` methods as actions on a state with exceptions; `transaction` rolls back.
--               `Exec/Within` and `Exec/Raises` are the rules for what an action does and throws.
--   Db, Tables  the tenant's database, one list for each table, with the rows of
--               database/migrations/tenant_template/003_inventory.sql, 004_purchase.sql and
--               005_sales.sql, and the queries.
--   Numbering   backend/src/modules/inventory/infrastructure/document-numbering.helper.ts and
--               database/functions/001_document_numbering.sql.
--   Stock       infrastructure/stock-posting.helper.ts (`Stock/Posting`) and the trigger on the
--               ledger in database/functions/002_stock_functions.sql (`Stock/Trigger`), with the
--               invariant of the stock tables (`Stock/Consistent`).
--   Inventory   the documents: what the repositories have in common (`Inventory/Document`), each
--               repository (`Transfer`, `Adjustment`, `Verification`, `Damage`, `Return`,
--               `OpeningStock`, `Reserved`, `Blocked`), that all five are approved once (`Once`), the listings of the ledger (`Ledger`) and of
--               the current stock (`CurrentStock`), the services (`Services`), and histories of
--               calls (`System`).
--   Trade       what the repositories of sales and purchase have in common: prices (`Pricing`) in
--               JavaScript's numbers (`Double`),
--               documents priced when they are made and changes of status (`Document`), notes that
--               fulfil an order (`Fulfilment`), payments allocated to invoices (`Payment`),
--               what is owed on invoices (`Outstanding`), and what their services have in common
--               (`Services`).
--   Sales       backend/src/modules/sales/infrastructure: `Quotation`, `Order`, `Challan`, `Invoice`,
--               `Payment`, `Return`; invoices and payments over time (`Billing`), quotations over
--               time (`Quotation/History`), documents that are made and found (`Created`), and every
--               call (`System`); the listing of what is owed
--               on invoices (`Outstanding`, over database/views/001_reporting_views.sql), and the
--               services of sales/application (`Services`).
--   Purchase    backend/src/modules/purchase/infrastructure, in the same way: `Order`, `Grn`,
--               `Invoice`, `Payment`, `Return`, `Billing`, `System`, `Outstanding`, `Services`.
--   Tenant      histories of calls of the three modules: their stock, and the invoices of both sides
--               (`Settled`). `Spares` in a module's folder is about the tables that it leaves alone.
--   Access      users and their roles: backend/src/modules/access, the repository (`Access`), the
--               guards of AccessService on users (`Access/Service`), the last Admin
--               (`Access/LastAdmin`), roles with their permissions (`Access/Roles`), and histories of
--               all calls (`Access/System`).
--               It has a database of its own, since no statement spans both.
--   Examples    a small company on which the theorems are applied, and tests.
--
-- How state and operations correspond. A method that awaits database calls is an action on `Db`; its
-- result is `ok` or `err`, beside the database it leaves. `db.transaction().execute` is `transaction`.
-- `approve` of each repository is `approve_document` with the repository's posting of a line
-- (`post_line`) and the columns that it stamps. A statement with its triggers stands or falls as one.
--
-- Bounds. Quantities and costs are natural numbers, counted in the last digit of their column
-- (thousandths, ten-thousandths), at which a JavaScript number is exact for the amounts of a shop; no
-- column of stock is negative, by its CHECK. The moving average rounds once, half up, to its column.
-- The decimal digits of a document number are taken with fuel for ten digits, enough for an `integer`.
-- An id is a natural number, 0 the nil uuid, and a fresh one comes from a counter. A line of a document
-- is priced in doubles (`Trade/Double`), on fuel for every scale that a double has, and rounded where a
-- column stores it, for amounts below 10 ^ 12, at which the text of a double shows its cents. What
-- a payment may allocate, and the status that an invoice gets by it, are decided in doubles too. The
-- product of a quantity and a factor is exact, where a product of doubles may be off in its last bit.
--
-- Not modelled. Foreign keys, but those to roles and of a payment to its party; UNIQUE columns other
-- than the keys of balances and counters, the number of a payment, a user's email and a role's name;
-- and the CHECKs on the quantities of the documents' lines, which the DTOs validate beforehand (those
-- of the ledger, the balances, the payments and what is paid of an invoice are modelled). Rows of one
-- sort key come in the order of the table. Calls run one after another: row locks of the database
-- serialise the transactions that touch one balance or one counter. The other modules of the backend,
-- and its front end, are outside this library.
pub mod Base
pub mod Exec
pub mod Db
pub mod Tables
pub mod Numbering
pub mod Stock
pub mod Inventory
pub mod Trade
pub mod Sales
pub mod Purchase
pub mod Tenant
pub mod Access
pub mod Examples
