-- ===== src/Auth.antt =====
-- core/: who calls. Subject and User: people and service accounts; Issuer: the issuers of the boxes;
-- Trust: the keys that their tokens are checked with; Internal: the callers of the internal API;
-- Static: workspace/static.go, the tenancy of a box.
pub mod Subject
pub mod Jwt
pub mod User
pub mod Issuer
pub mod Trust
pub mod Internal
pub mod Static
pub mod Boxes
pub mod Keys
pub mod Callers
pub mod Tenants
pub mod Tenancy
