-- ===== src/Logging.antt =====
-- include/fpag/logging/async: the records of the asynchronous logger.
pub mod Codec
pub mod Serializer
pub mod Worker
pub mod Roundtrip
pub mod Pieces
pub mod Records
pub mod Messages
pub mod Batches
pub mod Delivery
mod Tests
