-- ===== src/Crypto.antt =====
-- crypto/ and postgres/rewrap.go: credentials at rest, and their encryption under a new key.
pub mod Primitives
pub mod Keyring
pub mod Rewrap
