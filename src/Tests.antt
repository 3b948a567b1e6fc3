-- ===== src/Tests.antt =====
-- Concrete runs, and the theorems at concrete inputs.
mod Wire
mod Client
mod Errors
mod Cursor
mod Catalog
mod Types
mod Params
mod Dialect
mod Provenance
mod Record
mod Installation
mod Command
mod Compiler
mod Storage
mod Digest
mod Reflection
mod Url
