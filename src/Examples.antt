-- ===== src/Examples.antt =====
-- Concrete runs of the modelled operations, and the theorems at concrete inputs.
mod Transactions
mod Versions
mod Arrays
mod Trees
mod Tries
mod Regions
mod Bytes
mod Logs
mod Threads
mod Pages
