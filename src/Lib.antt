-- ===== src/Lib.antt =====
-- The e-pollbook's server: a check-in service that admits each registered voter once, in two
-- phases, over TLS connections of kiosks and of trusted devices.
--
-- How the parts interact. A kiosk sends a CheckinRequest that holds an identity verified and signed
-- by the voter ID service. The check-in service (src/checkin_service.cpp) validates it, makes the
-- voter pending, starts a timer, and answers with a ticket. A trusted device then presents the ticket
-- and the voter's PIN in a TicketRequest; while the timer runs, this checks the voter in. Otherwise
-- the timer makes the voter eligible again.
--
--   Prelude, Map, Run   lists and tests over the native numbers, association lists for std::map and
--                       std::unordered_map, and results that may throw
--   Text                std::to_string, std::stoul, std::getline and operator>>, with the C locale
--   Freshness           the test of a time stamp, with the wrap-around of 64 bits
--   External            nlohmann::json, OpenSSL's EVP functions and base64, as parameters, with the
--                       laws that their manuals give
--   Signature           src/openssl/signature.cpp: Signer and Verifier
--   Messages            include/epollbook/voter_id_request.hpp, checkin_request.hpp and
--                       trusted_client_request.hpp: ToJson and FromJson (child modules RoundTrip and
--                       TicketTrip: the two together)
--   Faults              include/epollbook/faulty_clients.hpp: the record of misbehaving clients
--                       (child modules Records: how long it is kept; Commands and Control: the
--                       commands of its listener)
--   Checkin.State       the state of CheckinService as the record Service
--   Checkin.Files       the voter list, trusted clients and ticket file, each as the list of its lines
--   Checkin.Requests    handle_checkin_request, validate_client_request, start_timer and
--                       handle_verification_timeout
--   Checkin.Tickets     handle_trusted_client, cut at its guards
--   Checkin.Network     handle_accept, start_size_read, start_payload_read, and the event loop
--   Checkin.Startup     the constructor and load_client_public_keys
--   Checkin.Book        what the service promises: a machine over the voters' statuses and timers
--   Checkin.Refines, Checkin.Safety
--                       that the handlers keep the promise, and what follows for the voters
--   Checkin.Admission, Checkin.Approval, Checkin.Redemption
--                       when a kiosk's and a trusted device's request succeed, and what they do then
--   Checkin.TicketLine, Checkin.TicketFile
--                       write_to_csv and read_from_csv together
--   Checkin.KeyFiles, Checkin.KeyPaths
--                       save_pub_key, load_client_public_keys and load_client_public_key together
--   Checkin.Roster      who the clients are, and who may check a voter in
--   Checkin.Crash       a message that ends the server
--   IdService           src/voter_id_service.cpp: the voter list, and in its child modules Validation,
--                       Network and Startup handle_validation_request, handle_accept,
--                       start_size_read, start_payload_read and the constructor
--   IdService.Statements, IdService.Accepted
--                       when the ID service signs a statement, and that check-in accepts it
--   Warnings            include/epollbook/warning_sink.hpp and src/log_utils.cpp: the warnings that the
--                       logger keeps (child module Query: src/warning_query_server.cpp; History and
--                       Removal: what the cache holds)
--   Config              src/config/config.cpp: the configuration (child module Threads: initialize and
--                       getInstance, step by step; Phases, Once, Ending and Waiting: every schedule)
--   Client              src/pollbook_client.cpp: the client of both services (child modules Requests and
--                       Tickets: its calls and completion handlers)
--   Client.Protocol, Client.Progress, Client.Redeeming, Client.Failures
--                       the handlers as the stages of one request, and how a request ends
--   Client.Backing, Client.Answers
--                       what the client reports as a success
--   Client.Identified, Client.Relayed, Client.Obtained
--                       the client and the ID service together
--   Client.Lines, Client.Delivered, Client.Admitted, Client.Presented, Client.Redeemed
--                       the client and the check-in service together
--   Envelope            src/openssl/envelope_encryption.cpp (child modules Calls and Buffer: how a call
--                       ends, and the buffers; Layout and Trip: the messages)
--   Keys                include/epollbook/openssl/envelope_key.hpp and src/openssl/envelope_key.cpp: the
--                       reference counts of keys (child modules Counts: they are right; Pem: the files
--                       of keys; Saved: a key that is written and read)
--   Samples, Tests      a small election, and each theorem applied to it
--
-- Conventions. A handler is a function from the state to the new state, or `throws` where an
-- exception leaves it. All handlers run on the one thread of the io_context, one after the other,
-- so a run is a list of events in the order of delivery; each event comes with what its handler
-- reads from outside: the clocks, the files, random bytes, and whether writing works (Ambient).
-- What a handler starts (writes, reads, timers, saved keys) is appended to a list of effects, the
-- latest first; log messages are left out. std::uint32_t and std::uint64_t are natural numbers
-- cut to their width where the code converts. A missing JSON key, undefined in C++ through a
-- constant reference, throws in the model, out of the handler also where a try block stands
-- around it; and so does a presented ID of fewer than four bytes, which the ID service reads past
-- its end. Serializing a text that is not UTF-8 is assumed to work.
--
-- Fuel. `digits` prints at most 20 digits, which hold every 64-bit number; every other loop recurs
-- on the list that it reads.
--
-- The calls of Config::initialize and getInstance are the one part that several threads run at once:
-- there a schedule says which thread takes the next step, and a step is one access to the flag or to
-- the instance.
--
-- Not modelled: the sockets and TLS streams, the locks, the thread that calls clearOldRecords every
-- hour (its rounds are events), the programs' main functions, the vendored inifile-cpp, and OpenSSL
-- with the classes that only wrap it (base64, and hashes, which nothing in the repository calls).
pub mod Prelude
pub mod Map
pub mod Run
pub mod Text
pub mod Freshness
pub mod External
pub mod Signature
pub mod Messages
pub mod Faults
pub mod Checkin
pub mod IdService
pub mod Warnings
pub mod Config
pub mod Envelope
pub mod Keys
pub mod Client
pub mod Samples
pub mod Tests
