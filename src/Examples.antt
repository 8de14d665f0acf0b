-- ===== src/Examples.antt =====
-- Runs against the software unit: the tests, and the theorems at concrete inputs.
mod Inputs
mod Operations
mod Catalogue
mod Flows
mod Pages
mod Server
mod Covers
