-- ===== src/Crypt.antt =====
-- internal/crypt/manager.go: the key that encrypts the data (SDEK), wrapped under a password and
-- under a recovery key in one file. Platform has the data and what the manager takes from libraries;
-- Mnemonic the words of a recovery key; Manager and Recovery the operations.
pub mod Platform
pub mod Mnemonic
pub mod Manager
pub mod Recovery
pub mod Laws
pub mod Sealing
pub mod Made
pub mod Rewrapping
pub mod SettingUp
pub mod Worded
pub mod Recovering
pub mod History
pub mod Locking
pub mod Refusing
pub mod Words
