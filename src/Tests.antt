-- ===== src/Tests.antt =====
-- The properties at concrete inputs, one file for each part of the program.
mod Pool
mod Artifacts
mod Sessions
mod Fleet
mod Controller
mod Wire
mod Worker
mod Shell
mod Relay
mod Client
mod Browser
