-- ===== src/Administration.antt =====
-- The instructions of the administrators (program/src/processor.rs): the account of the configuration,
-- the cancellation of orders, the withdrawal of SRM tokens, the checks before a setting is changed, and
-- the migration to another order book.
pub mod Accounts
pub mod Config
pub mod Srm
pub mod Orders
pub mod SetParams
pub mod Migrate
