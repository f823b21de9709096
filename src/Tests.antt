-- ===== src/Tests.antt =====
-- Tests of the definitions and the theorems at concrete inputs, one module for each part.
mod Database
mod Slots
mod Settings
mod History
mod Runs
mod Reports
mod Network
mod Containers
mod Sessions
mod Writers
mod Programs
mod Streams
mod Server
mod Updates
mod Engine
mod Warming
