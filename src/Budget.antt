-- ===== src/Budget.antt =====
-- internal/budget/budget.go: the accounts in memory, the Redis scripts, the manager over both.
pub mod Account
pub mod Script
pub mod Refine
pub mod Manager
pub mod Ledger
pub mod Once
pub mod Units
