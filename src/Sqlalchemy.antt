-- ===== src/Sqlalchemy.antt =====
-- flightsql/sqlalchemy.py: the dialects on top of the DB API.
pub mod Reflection
pub mod Url
pub mod Keys
pub mod Dialect
pub mod Compiler
pub mod Loader
