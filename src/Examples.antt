-- ===== src/Examples.antt =====
-- Concrete values for the parameters, and the theorems at work on them.
mod Addresses
mod Data
mod Runs
mod Parts
mod Options
mod Json
mod Client
mod System
