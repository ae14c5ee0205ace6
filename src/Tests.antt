-- ===== src/Tests.antt =====
-- The theorems at concrete inputs, and runs of the definitions.
mod Samples
mod Reconciler
mod RunnerSamples
mod Runner
mod Gateway
mod Paper
mod Live
mod Router
mod Aggregator
