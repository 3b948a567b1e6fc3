-- ===== src/Provenance.antt =====
-- flightsql/provenance.py: the checks of what an installer recorded, and the command on them.
pub mod Hash
pub mod Record
pub mod Inventory
pub mod Source
pub mod Verify
pub mod Installed
pub mod Main
pub mod Digest
