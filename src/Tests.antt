-- ===== src/Tests.antt =====
-- Concrete runs and instances of the theorems.
mod Orders
mod Requests
mod Relay
mod Fill
mod Loop
mod Messages
mod Watcher
mod Client
mod Release
mod Delivery
mod Checkpoint
mod Listing
