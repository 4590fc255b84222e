-- ===== src/Messages.antt =====
-- The messages of the protocol, a module for each header of include/epollbook.
pub mod VoterId
pub mod Checkin
pub mod Ticket
pub mod RoundTrip
pub mod TicketTrip
