-- ===== src/ChainIo.antt =====
-- src/chain-io/: buffers between a program and a source or a sink, which a callback reads or writes.
-- A callback works on a state of its own (`arg`), and is a parameter.
pub mod Read
pub mod Write
pub mod Pulls
pub mod Pushes
mod Runs

-- `chain_status`
pub data ChainStatus : Type 0 where
  chain_error chain_incomplete chain_complete : ChainStatus
