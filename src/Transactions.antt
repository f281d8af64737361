-- ===== src/Transactions.antt =====
-- Incomes and expenses, and what they share
-- (src/modules/transactions/transactions/transactions.service.ts, expenses, incomes).
pub mod Defs
pub mod Expenses
pub mod Incomes
pub mod Frames
pub mod Posted
pub mod Changed
pub mod Planning
