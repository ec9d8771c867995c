-- ===== src/Tests.antt =====
-- Runs on small inputs, and the theorems at concrete inputs.
mod Inputs
mod Running
mod Streams
mod Points
mod Files
mod Events
mod Hardware
mod Dump
mod Devices
mod Print
