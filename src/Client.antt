-- ===== src/Client.antt =====
-- flightsql/client.py
pub mod Wire
pub mod Handle
pub mod Options
pub mod Service
pub mod Request
pub mod Connect
pub mod Prepared
