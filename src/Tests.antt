-- ===== src/Tests.antt =====
-- Concrete runs of the theorems.
mod Buffers
mod Texts
mod Torrents
mod Requests
mod Pools
mod Queries
mod Traffic
mod Threads
mod Jobs
mod Frees
mod Ends
mod Allocations
mod Scrapes
