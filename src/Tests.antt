-- ===== src/Tests.antt =====
-- Runs of the model, and each theorem at a concrete input.
pub mod Checkins
pub mod Parts
pub mod Admissions
pub mod Statements
pub mod Authority
pub mod Kiosks
pub mod Monitors
pub mod Rounds
pub mod Devices
pub mod Envelopes
pub mod KeyCopies
use pollbook_server.Prelude.{ℕ}
use pollbook_server.Prelude.{text_beq}
use pollbook_server.Map.{lookup, insert, emplace, erase}
use pollbook_server.Text.{
  digits, to_string, skip_spaces, read_digits, unsigned_below, signed_below, stoul, extract_u32,
  cut, getline, split_from, split, first_column,
}
use pollbook_server.Freshness.{time_difference, abs_i64, gt_i64, is_stale}
use pollbook_server.External.{at, get_u64, get_u32, get_text, get_bool, get_bytes, assigned}
use pollbook_server.Signature.{
  new_signer, new_verifier, signer_init, signer_add_bytes, verifier_init, verifier_add_bytes,
  on_status, signer_finalize, sign_bytes, verifier_finalize, verify_bytes, sign_text, verify_text,
}
use pollbook_server.Messages.VoterId.{
  voter_id_body_to_json, voter_id_request_to_json, voter_id_request_from_json, id_statement,
  verified_voter_id_to_json, verified_voter_id_from_json,
}
use pollbook_server.Messages.Checkin.{
  checkin_body_to_json, checkin_request_to_json, checkin_request_from_json,
  checkin_response_body_to_json, checkin_response_to_json, checkin_response_from_json,
}
use pollbook_server.Messages.Ticket.{
  ticket_body_to_json, ticket_request_to_json, contains, is_complete, ticket_request_from_json,
  ticket_response_body_to_json, ticket_response_to_json, ticket_response_from_json,
}
use pollbook_server.Faults.{report_fault, clear_client, clear_old_records}
use pollbook_server.Checkin.State.{
  emit, fault, id_of, touch_id, load_client_public_key, ensure_verifier,
}
use pollbook_server.Checkin.Files.{
  hex_digit, hex, generate_secret, ticket_columns, add_entry, read_ticket_line, read_ticket_lines,
  read_from_csv, ticket_line, write_to_csv, columns, voter_line, find_voter, load_voters,
  load_voter_list, load_trusted_clients, load_pin_mappings,
}
use pollbook_server.Checkin.Requests.{
  frame, start_timer, revert, handle_verification_timeout, validate_claims, validate_id_signature,
  validate_client_request, mark, mark_pending, response_body, send_checkin_response, issue_ticket,
  answer, consider, checkin_identified, handle_checkin_request,
}
use pollbook_server.Checkin.Tickets.{
  in_window, take, take_timer, send_ticket_response, ticket_response, confirm, grant, report_used,
  deny, settle, redeem, authenticate, with_ticket, handle_ticket_request, read_ticket_request,
  handle_trusted_client,
}
use pollbook_server.Checkin.Network.{
  has_byte, client_id_of_name, contains as network_contains, add_client, register, add_verifier,
  admit_key, admit, identify, handle_handshake, handle_size_read, or_null, handle_untrusted_client,
  dispatch, from_client, from_endpoint, handle_payload_read, step, run,
}
use pollbook_server.Checkin.Startup.{
  before_last?, before_last, strip, erase_first, key_file_client, load_client_public_keys,
  new_service,
}
use pollbook_server.Samples.Json.{to_fields, object, find_field, member}
use pollbook_server.Checkin.Safety.Runs.{check_ins}

-- A test computes with all that the service calls.
pub everything : ℕ
unfolding text_beq lookup insert emplace erase digits to_string skip_spaces read_digits
    unsigned_below signed_below stoul extract_u32 cut getline split_from split first_column
    time_difference abs_i64 gt_i64 is_stale at get_u64 get_u32 get_text get_bool get_bytes assigned
    new_signer new_verifier signer_init signer_add_bytes verifier_init verifier_add_bytes on_status
    signer_finalize sign_bytes verifier_finalize verify_bytes sign_text verify_text
    voter_id_body_to_json voter_id_request_to_json voter_id_request_from_json id_statement
    verified_voter_id_to_json verified_voter_id_from_json checkin_body_to_json
    checkin_request_to_json checkin_request_from_json checkin_response_body_to_json
    checkin_response_to_json checkin_response_from_json ticket_body_to_json ticket_request_to_json
    contains is_complete ticket_request_from_json ticket_response_body_to_json
    ticket_response_to_json ticket_response_from_json report_fault clear_client clear_old_records
    emit fault id_of touch_id load_client_public_key ensure_verifier hex_digit hex generate_secret
    ticket_columns add_entry read_ticket_line read_ticket_lines read_from_csv ticket_line
    write_to_csv columns voter_line find_voter load_voters load_voter_list load_trusted_clients
    load_pin_mappings frame start_timer revert handle_verification_timeout validate_claims
    validate_id_signature validate_client_request mark mark_pending response_body
    send_checkin_response issue_ticket answer consider checkin_identified handle_checkin_request
    in_window take take_timer send_ticket_response ticket_response confirm grant report_used deny
    settle redeem authenticate with_ticket handle_ticket_request read_ticket_request
    handle_trusted_client has_byte client_id_of_name network_contains add_client register
    add_verifier admit_key admit identify handle_handshake handle_size_read or_null
    handle_untrusted_client dispatch from_client from_endpoint handle_payload_read step run
    before_last? before_last strip erase_first key_file_client load_client_public_keys new_service
    to_fields object find_field member check_ins
everything = 0
