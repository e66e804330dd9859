-- ===== src/Schema.antt =====
-- workspace/pipeline_schema.go: what a pipeline's source_config and source_credentials must look like.
-- Types: the decoded JSON; Sources: the plain source types; Google: the delegated Google credential;
-- DuckDb: the DuckDB extensions; Validate: the dispatch on the source type.
pub mod Types
pub mod Cut
pub mod Sources
pub mod Google
pub mod DuckDb
pub mod Validate
pub mod Dialect
pub mod Extensions
pub mod Placeholders
pub mod Params
pub mod Drive
pub mod Secret
