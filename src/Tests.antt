-- ===== src/Tests.antt =====
-- Runs of the model on concrete inputs, and each theorem at an input where its hypotheses hold.
mod Queue
mod Jobs
mod Lanes
mod Names
mod Stream
mod Callbacks
mod Rooms
mod Mirrors
mod Rips
mod Workers
mod Gateways
mod Caches
