-- ===== src/Tests.antt =====
-- Concrete runs of the modelled code, on fixed-point numbers.
mod Data
mod Stores
mod Executions
mod Decisions
mod Controls
mod Markets
mod Orders
mod Statistics
mod Venue
mod Requests
mod Paper
