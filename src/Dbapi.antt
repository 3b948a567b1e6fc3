-- ===== src/Dbapi.antt =====
-- flightsql/dbapi.py
pub mod Cursor
pub mod Response
pub mod Catalog
pub mod Tables
pub mod Params
pub mod Types
pub mod Results
pub mod Storage
pub mod Connection
