-- ===== src/Postgres.antt =====
-- postgres/: the statements of the pipeline tables. Columns hold plaintext here: Crypto/Keyring is
-- about the encoding that `encryptCredentials` and `decryptCredentials` put between.
mod Tables
mod Pipelines
mod Runs
mod Enabled
mod Renders
pub mod Effects
pub mod Pending
pub mod Undo
pub mod Restore
pub mod Reinsert
unfoldable pub use Tables.*
unfoldable pub use Pipelines.*
unfoldable pub use Runs.*
unfoldable pub use Enabled.*
unfoldable pub use Renders.*
