-- ===== src/Tests.antt =====
-- Concrete runs of the program, and the theorems at inputs where their hypotheses hold.
mod Toy
mod Ledger
mod Chain
mod Pool
mod Peers
mod Cycle
mod Sync
mod Datagrams
mod Stored
mod Versions
