-- ===== src/Auth.antt =====
-- auth.py, `AuthMiddleware` of core.py, the account's endpoints of admin_api.py, and the config
-- table of storage/db.py that they keep their state in. Times are microseconds.
pub mod Store
pub mod Keys
pub mod Sessions
pub mod Password
pub mod Accounts
pub mod SetupToken
