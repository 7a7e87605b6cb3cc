-- ===== src/Tests.antt =====
-- Concrete spans, rings, tables and packets, and the theorems at them.
mod Data
mod Spans
mod Exports
mod Collecting
mod Trees
mod Analysis
mod Documents
mod Configuring
mod Statistics
mod Sampling
mod Threading
mod Querying
