-- ===== src/Ohttp.antt =====
-- tee_gateway/ohttp.py, and the client of scripts/test_ohttp.py that reads what it writes.
pub mod Bytes
pub mod Varint
pub mod Crypto
pub mod Request
pub mod Response
pub mod Client
pub mod Exchange
pub mod Stream
pub mod Toy
mod Tests
