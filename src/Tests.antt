-- ===== src/Tests.antt =====
-- The theorems at concrete inputs: lists in memory, packets and addresses, the bootstrap server,
-- the client's lists, its index of files and its state machine.
mod Memory
mod Wire
mod Bootstrap
mod Peers
mod Neighbours
mod Files
mod Transfers
mod Index
mod Client
mod Whohas
