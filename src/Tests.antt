-- ===== src/Tests.antt =====
-- Runs of the theorems on concrete data.
mod Sending
mod Queues
mod Alone
mod Interest
mod Queue
mod Signals
mod Workers
mod Sparse
mod Blocks
mod Descriptors
mod Threads
mod Refs
