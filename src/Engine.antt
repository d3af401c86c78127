-- ===== src/Engine.antt =====
-- libs/kuli-engine/src/engine.cpp, by parts: the wildcard matcher, the expansion of a plan, the
-- transport, the pipeline and the dispatch.
pub mod Glob
pub mod Value
pub mod Queries
pub mod Search
pub mod Stage
pub mod Exec
pub mod Remote
pub mod Transport
pub mod Plan
pub mod Realize
pub mod Run
pub mod Keeps
pub mod Ends
pub mod Calls
pub mod Depth
pub mod WriteOnce
pub mod DryRun
pub mod Pipes
