-- ===== src/Examples.antt =====
-- Runs of the models on concrete values.
mod DataChannel
mod Procedures
mod Packets
mod Transforms
mod Backend
mod Hal
