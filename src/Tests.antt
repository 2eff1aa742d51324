-- ===== src/Tests.antt =====
-- Tests of the definitions on concrete inputs, and the theorems at inputs that meet their hypotheses.
mod Routing
mod Limits
mod Truncation
mod Selection
mod Streaming
mod Pools
mod Logging
mod Driving
mod Signing
mod Opening
mod Converting
mod Adapting
