-- ===== src/Accounts.antt =====
-- pkg/accounts: the account store.
pub mod Store
