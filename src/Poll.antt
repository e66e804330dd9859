-- ===== src/Poll.antt =====
-- workspace/pipeline.go: what the worker polls. Resolver: the customer's Google client and connections,
-- looked up once for a batch; Serve: GetEnabledPipelines.
pub mod Resolver
pub mod Cache
pub mod Serve
pub mod Served
