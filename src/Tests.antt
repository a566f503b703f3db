-- ===== src/Tests.antt =====
-- Runs of the definitions, and each theorem at a concrete input.
mod Tables
mod Fields
mod Frames
mod Texts
mod Threads
mod Blocks
mod Responses
mod Scripts
mod Logs
mod Commands
mod Proxies
