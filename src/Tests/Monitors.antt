-- ===== src/Tests/Monitors.antt =====
-- The fault tracker's listener, the warning cache and the configuration.
use pollbook_server.Tests.{everything}
use pollbook_server.Prelude.{
  ◌≡◌, ◌≢◌, refl, ℕ, suc, ◌≤◌, ◌<◌, true, false, Option, none, some, List, [], ◌∷◌, ◌++◌, arith,
  nat_eq, text_eq, Text, codes, length, get_elem?, ltb, ◌==◌, if◌then◌else◌,
}
use pollbook_server.External.{External}
use pollbook_server.Faults.{FaultMap}
use pollbook_server.Map.{lookup}
use pollbook_server.Faults.Commands.{
  JsonLists, Connection, no_line, line, fault_record_to_json, fault_record_from_json,
  get_all_clients_json, get_client_json, error_response, data_response, show_client, clear_named,
  run_command, try_command, or_error, handle_command, listen,
}
use pollbook_server.Faults.Control.{command_exact, broken_ends_listener}
use pollbook_server.Warnings.{
  info, warn, erase_at, sink_it, remove_warning_at, make_default_logger, log_message,
  clear_warning_cache, remove_warning_at_index, get_warning_cache_snapshot,
}
use pollbook_server.Warnings.Query.{
  QueryEvent, accepted, line_read, response_written, logged, WarningQueryServer, initiate,
  after_prefix, removal_response, remove_warning, remove_or_reject, respond, handle_accept,
  handle_line, handle_written, query_step, query_run,
}
use pollbook_server.Warnings.History.{IsSubsequence, cache-HoldsLogged}
use pollbook_server.Warnings.Removal.{removal_exact}
use pollbook_server.Text.{to_string}
use pollbook_server.Config.{IniFile, section_of, has_key, new_config}
use pollbook_server.Config.Threads.{
  uninitialized, initialized, at_test, at_exchange, returned, Singleton, move, exchange,
  constructed, step_at, thread_step, schedule,
}
use pollbook_server.Config.Phases.{IsOutside}
use pollbook_server.Config.Ending.{configuration_once, failed_construction_blocks}
use pollbook_server.Config.Waiting.{waiting_ends}
use pollbook_server.Samples.Json.{Value, sample_external, object}

-- A test computes with all that these parts call.
monitor_functions : ℕ
unfolding everything fault_record_to_json fault_record_from_json get_all_clients_json
    get_client_json error_response data_response show_client clear_named run_command try_command
    or_error handle_command listen erase_at sink_it remove_warning_at make_default_logger
    log_message clear_warning_cache remove_warning_at_index get_warning_cache_snapshot initiate
    after_prefix removal_response remove_warning remove_or_reject respond handle_accept handle_line
    handle_written query_step query_run section_of has_key new_config move exchange constructed
    step_at thread_step schedule
monitor_functions = 0

-- Every text is the command to clear client 7.
abbrev clear_parse : Text → Option Value
unfolding monitor_functions
clear_parse s =
    some (
      object
        ((codes "command", Value.text (codes "clear")) ∷ (codes "client_id", Value.num 7) ∷ []))

abbrev tracker : External
unfolding monitor_functions
tracker = sample_external clear_parse

abbrev lists : JsonLists tracker
unfolding monitor_functions
lists = record { of_texts = λ ts. Value.null; as_texts = λ j. none; empty_object = Value.null }

abbrev faults : FaultMap
faults =
    (7, record { last_report_time = 5; fault_descriptions = codes "late" ∷ [] })
    ∷ (8, record { last_report_time = 6; fault_descriptions = codes "late" ∷ [] })
    ∷ []

clears :
    (handle_command tracker lists 1 (codes "what") (codes "{}") faults).0
    ≡ (8, record { last_report_time = 6; fault_descriptions = codes "late" ∷ [] }) ∷ []
unfolding monitor_functions
clears = refl

command_exact_example :
    lookup 7 (handle_command tracker lists 1 (codes "what") (codes "{}") faults).0 ≡ none
unfolding monitor_functions
command_exact_example = command_exact tracker lists 1 (codes "what") (codes "{}") faults 7

abbrev clear_request : Text × Connection
clear_request = (codes "what", line (codes "{}") true)

broken_ends_listener_example :
    listen tracker lists 1 (clear_request ∷ (codes "eof", no_line) ∷ clear_request ∷ []) faults
    ≡ listen tracker lists 1 (clear_request ∷ (codes "eof", no_line) ∷ []) faults
unfolding monitor_functions
broken_ends_listener_example =
    broken_ends_listener tracker lists 1 (clear_request ∷ []) (clear_request ∷ []) (codes "eof")
      no_line faults tt

abbrev no_texts : List Text → tracker.Json
unfolding monitor_functions
no_texts ts = Value.null

abbrev query_server : WarningQueryServer
query_server = record { warning_cache = some []; started = [] }

abbrev morning : List QueryEvent
morning =
    logged warn (codes "a")
    ∷ logged info (codes "b")
    ∷ accepted 1 true
    ∷ logged warn (codes "c")
    ∷ line_read 1 (some (codes "remove_warning 0"))
    ∷ response_written 1 true
    ∷ logged warn (codes "d")
    ∷ []

morning_cache :
    (query_run tracker no_texts morning query_server).warning_cache
    ≡ some (codes "c" ∷ codes "d" ∷ [])
unfolding monitor_functions
morning_cache = refl

cache-HoldsLogged_example :
    IsSubsequence (codes "c" ∷ codes "d" ∷ []) (codes "a" ∷ codes "c" ∷ codes "d" ∷ [])
unfolding monitor_functions
cache-HoldsLogged_example = cache-HoldsLogged tracker no_texts morning query_server refl

unknown_response : length (respond tracker no_texts (codes "list") none).1 ≡ 28
unfolding monitor_functions
unknown_response = refl

abbrev two_warnings : List Text
two_warnings = codes "a" ∷ codes "b" ∷ []

removal_exact_example :
    let command = codes "remove_warning " ++ to_string 1 in
    (1 < length two_warnings
      → (ws' : List Text) × (respond tracker no_texts command (some two_warnings)
          ≡ (some ws', removal_response tracker no_texts 1 true))
        × (suc (length ws') ≡ length two_warnings)
        × ((i : ℕ)
            → get_elem? ws' i
              ≡ (if ltb i 1 then get_elem? two_warnings i else get_elem? two_warnings (suc i))))
    × (length two_warnings ≤ 1
        → respond tracker no_texts command (some two_warnings)
          ≡ (some two_warnings, removal_response tracker no_texts 1 false))
removal_exact_example = removal_exact tracker no_texts 1 two_warnings (omega arith)

abbrev good_file : IniFile
good_file =
    (codes "Basic", (codes "client_id", codes "7") ∷ [])
    ∷ (codes "Security", (codes "private_key", codes "key.pem") ∷ [])
    ∷ []

-- One file can be loaded.
abbrev contents : Text → Option IniFile
contents path = if path == codes "good.ini" then some good_file else none

-- Thread 0 initializes from a path, and all others get the instance.
abbrev beginning : Text → Singleton
beginning path = record {
  flag = uninitialized;
  config = none;
  place = λ t. if t == 0 then at_exchange path false else at_test;
}

place-IsOutside : (path : Text) (t : ℕ) → IsOutside ((beginning path).place t)
place-IsOutside path t = ground arith

configuration_once_example :
    (file : IniFile) × ((schedule contents
        (0 ∷ 1 ∷ 0 ∷ 0 ∷ 0 ∷ [])
        (beginning (codes "good.ini"))).config
      ≡ some file)
    × ((schedule contents
          (1 ∷ 1 ∷ 2 ∷ 1 ∷ [])
          (schedule contents (0 ∷ 1 ∷ 0 ∷ 0 ∷ 0 ∷ []) (beginning (codes "good.ini")))).config
        ≡ some file)
unfolding monitor_functions
configuration_once_example =
    configuration_once contents (0 ∷ 1 ∷ 0 ∷ 0 ∷ 0 ∷ []) (1 ∷ 1 ∷ 2 ∷ 1 ∷ []) 0
      (beginning (codes "good.ini")) (refl, refl, place-IsOutside (codes "good.ini")) refl

-- The file that thread 0 names is not there.
failed_construction_blocks_example :
    (schedule contents
        (1 ∷ 1 ∷ 1 ∷ 2 ∷ 2 ∷ [])
        (schedule contents (0 ∷ 0 ∷ []) (beginning (codes "bad.ini")))).place
      1
    ≢ returned
unfolding monitor_functions
failed_construction_blocks_example =
    failed_construction_blocks contents (0 ∷ 0 ∷ []) (1 ∷ 1 ∷ 1 ∷ 2 ∷ 2 ∷ []) 0 1
      (beginning (codes "bad.ini")) (refl, refl, place-IsOutside (codes "bad.ini")) refl

abbrev made : Singleton
made = record { flag = initialized; config = some good_file; place = λ t. at_test }

waiting_ends_example : (schedule contents (5 ∷ 0 ∷ 5 ∷ 1 ∷ 5 ∷ []) made).place 5 ≡ returned
unfolding monitor_functions
waiting_ends_example =
    waiting_ends contents (5 ∷ 0 ∷ 5 ∷ 1 ∷ 5 ∷ []) 5 good_file made (refl, refl, λ u. tt)
      (omega arith)
