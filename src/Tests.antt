-- ===== src/Tests.antt =====
-- Runs of the definitions at concrete inputs, and the theorems applied to them.
mod Samples
mod Toys
mod Custodian
mod Enclave
mod Policy
mod CustodianServer
mod Ingest
mod Sealing
mod Usage
mod Disclosure
mod Audit
mod Review
mod Registry
