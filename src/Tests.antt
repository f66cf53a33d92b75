-- ===== src/Tests.antt =====
-- Runs of the definitions on concrete inputs, each through a theorem of the library.
mod Floats
mod Payouts
mod Rankings
mod Trips
mod Orders
mod Rebuilds
mod Closings
mod Access
mod Issues
mod Contended
mod Scans
mod TripIssues
mod TripScans
mod Events
