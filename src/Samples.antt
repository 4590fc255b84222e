-- ===== src/Samples.antt =====
-- A small polling place, for the tests: JSON as a data type, signatures that repeat the key, one
-- kiosk, one trusted device and one voter.
pub mod Json
pub mod Polls
pub mod Contact
pub mod Ciphers
