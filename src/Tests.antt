-- ===== src/Tests.antt =====
-- Runs of the model on small inputs, and the theorems at concrete inputs.
mod Modifications
mod Docs
mod Requests
mod Backend
mod Statistics
mod QueuePaths
mod Workers
mod Runs
mod Waits
