-- ===== src/Lib.antt =====
-- Verification of babki-back, the back end of a shared finance application: spaces whose members
-- keep accounts, incomes, expenses, transfers, debts, plans, categories and limits.
--
-- The parts. A transaction of a space concerns one account, or two if it is a transfer. Every
-- account has month-end snapshots of its balance, which a service rebuilds from the ledger
-- whenever it writes a transaction. A debt has repayments, each of which may post an income; what
-- remains of a debt is kept beside its principal. The services call each other in one database
-- session and share the collections of one database.
--
-- The files.
--   Money: src/common/money/money.ts. Amounts are decimal numbers of at most six fraction
--     digits, in units of 10 ^ -6, as integers without bound. No currency has more than four
--     fraction digits, so the rounding is computed in these units, with halves rounded up. The
--     source rounds a double to which the machine epsilon is added: away from halves, and within
--     the precision of a double, this is the same, but the double of an amount half way between
--     two minor units may lie a little below it and is then rounded down (10.075 gives 10.07, and
--     0.075 gives 0.08). Doubles are not modelled. What `Intl` knows of currencies is the parameter
--     `Intl`. Currency codes are numbers that stand for codes already trimmed and in upper case. On
--     an unsupported code `normalizeMoney` throws an error that is no HTTP exception; the services
--     of the model raise it where they call that function.
--   Dates: `utcMonthEnd` of src/modules/accounts-snapshots/accounts-snapshots.service.ts, on
--     milliseconds since 1970, with the Gregorian calendar written out. The search for a month has
--     the number of days as fuel, which is enough since every month has a day at least.
--   Mongo: the database driver, which is third-party code: a record of its operations on one
--     collection, each with the law that the driver documents. Session: services as actions on the
--     database; an exception carries no database, since the aborted transaction is rolled back.
--     Tables and Schemas: the collections and their documents (src/modules/*/schemas). Http: the
--     exceptions. Budget: src/common/budget/budget-context.ts.
--   Snapshots: accounts-snapshots.service.ts, method by method. Snapshots.Balance has the balance
--     as a function of the ledger, Snapshots.Rebuild what a rebuild writes, Snapshots.Invariant the
--     agreement of snapshots and ledger and the steps that keep it.
--     Mongo.Lookup, Mongo.Distinct, Mongo.Writes and Mongo.Gone have the lemmas on collections.
--   Prelude: the shared types and lemmas; Prelude.Texts has `trim` and the equality of texts.
--   Categories: src/modules/expense-categories/expense-category-lock.ts; Categories.Service has
--     expense-categories.service.ts beside it, Categories.Unused what a removal finds.
--   Limits: src/modules/expense-limits/expense-limits.service.ts. Apart states that periods are
--     apart, Keeps follows the operations, Rest compares what is left before and after an expense.
--   Accounts: src/modules/accounts/accounts/accounts.service.ts; Remove follows the removal.
--   Spaces: src/modules/spaces/spaces.service.ts: Spaces has the documents, Spaces.Actions the work
--     of each operation in its transaction, Spaces.Service the operations. Spaces.Invitations has
--     space-invitations.service.ts; the digest of the runtime is the parameter `Hash`. Book states
--     what spaces, memberships and invitations promise together; Changes, Delete, Started, Keeps,
--     Ownership and Accept have the writes that keep it; History has the operations as steps.
--     Leave, Rights, Joined and Invited follow single operations. Where the source asks for the
--     time more than once, as the acceptance does, the model has a time for each.
--   Finances: src/modules/space-finances. Finances has space-financial-actors.service.ts, and
--     Debts, Plans, Settings, Wallet, Transfers and Entries have the services named after them
--     (Entries: space-transactions.service.ts). Rights and Authorised follow the changes of entries.
--   Transactions: Defs has transactions.service.ts, Expenses and Incomes their services, Posted,
--     Planning and Frames what the steps of a service leave alone, Ledger what a new document does,
--     Changed an update and a deletion.
--   Transfers: transfers.service.ts; Steps, Ledger, Effects and Theorems follow its creation.
--   Debts: src/modules/debts/debts.service.ts. Book states what debts and repayments promise
--     together, Changes has the changes of the two collections that keep it, Repay, Cancel, Keeps
--     and Archive the operations, RoundTrip a repayment with its cancellation.
--   Plans: src/modules/plans/plans.service.ts. Book has the changes of one plan, Close what
--     closing one does, Paid that closed plans have the expenses that were posted for them.
--   Access: src/modules/spaces/spaces-access.service.ts, space-permissions.ts and
--     spaces-transaction.service.ts beside it,
--     src/modules/budgets/budget-access.service.ts and budget-write.service.ts. Permits has the
--     permission check, Atomic the transaction that an operation runs in. The transactions of the
--     driver are the parameter `Transactions`: one that fails was rolled back, gave up, or was
--     committed without the driver learning of it.
--   Tests: a driver on lists, a small database, and the examples.
--
-- Where a service has a currency that the type says may be missing (`currency!`), the model raises
-- an error that is not an HTTP exception. Two checks of the source that compare ids as texts and as
-- objects are one. A field of a request that no modelled code reads is left out.
--
-- Not modelled: the validation of requests by class-validator and of documents by Mongoose, with
-- the unique indexes; the lists with their filters, sorting, pages and time lines; the logins, the
-- deletion of users and the second factor, of which only the documents are here (Schemas.Auth);
-- reports, audits, seeds, configuration, controllers and modules.
pub mod Prelude
pub mod Money
pub mod Dates
pub mod Mongo
pub mod Http
pub mod Schemas
pub mod Tables
pub mod Session
pub mod Budget
pub mod Snapshots
pub mod Categories
pub mod Transactions
pub mod Transfers
pub mod Debts
pub mod Plans
pub mod Access
pub mod Tests
pub mod Spaces
pub mod Limits
pub mod Accounts
pub mod Finances
