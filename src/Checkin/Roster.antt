-- ===== src/Checkin/Roster.antt =====
-- The members clients and trusted_clients of CheckinService: who the clients are.
pub mod Kiosk
pub mod Device
pub mod Trust
pub mod Authority
