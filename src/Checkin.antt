-- ===== src/Checkin.antt =====
-- The check-in service: src/checkin_service.cpp and include/epollbook/checkin_service.hpp.
pub mod State
pub mod Files
pub mod Requests
pub mod Tickets
pub mod Network
pub mod Book
pub mod Refines
pub mod Safety
pub mod Redemption
pub mod Admission
pub mod Approval
pub mod TicketLine
pub mod TicketFile
pub mod Roster
pub mod Crash
pub mod Startup
pub mod KeyFiles
pub mod KeyPaths
