-- ===== src/Faults/Commands.antt =====
-- include/epollbook/faulty_clients.hpp: FaultTracker::handleCommand, and the thread of
-- startNetworkListener that calls it.
use pollbook_server.Prelude.{
  ℕ, ◌*◌, ◌/◌, Bool, true, false, ◌&&◌, Option, none, some, List, [], ◌∷◌, ◌++◌, map, ◌==◌, text_eq,
  nat_eq, if◌then◌else◌, Text, codes,
}
use pollbook_server.Map.{lookup}
use pollbook_server.Run.{Run, done, throws, ◌>>=◌, or_throw}
use pollbook_server.Text.{to_string}
use pollbook_server.External.{External, at, get_u64, get_u32, get_text}
use pollbook_server.Faults.{FaultyClientRecord, FaultMap, clear_client}

-- What the commands use of nlohmann::json beyond the messages.
pub record JsonLists (x : External) : Type 0 where
  -- conversions of std::vector<std::string>
  pub of_texts : List Text → x.Json
  pub as_texts : x.Json → Option (List Text)
  -- nlohmann::json::object()
  pub empty_object : x.Json

-- A connection to the listener, and how far it comes.
pub data Connection : Type 0 where
  not_accepted no_line : Connection
  -- the bytes read, and whether the response can be written
  line : Text → Bool → Connection

abbrev pub has_value {ℓ} : {A : Type ℓ} → Option A → Bool
has_value none = false
has_value (some a) = true

-- `per_second` is the number of ticks of the system clock in a second.
module _ (x : External) (lists : JsonLists x) (per_second : ℕ) where
  unfoldable pub fault_record_to_json : FaultyClientRecord → x.Json
  fault_record_to_json r = x.object (
      (codes "lastReportTime", x.of_nat (r.last_report_time / per_second))
      ∷ (codes "faultDescriptions", lists.of_texts r.fault_descriptions)
      ∷ [])

  unfoldable pub fault_record_from_json : x.Json → Run FaultyClientRecord
  fault_record_from_json json = do
    time ← get_u64 x json "lastReportTime"
    array ← at x json "faultDescriptions"
    descriptions ← or_throw (lists.as_texts array)
    done (record { last_report_time = time * per_second; fault_descriptions = descriptions })

  unfoldable pub get_all_clients_json : FaultMap → x.Json
  unfolding fault_record_to_json
  get_all_clients_json m = x.object (map (λ (c, r). (to_string c, fault_record_to_json r)) m)

  unfoldable pub get_client_json : ℕ → FaultMap → x.Json
  unfolding fault_record_to_json
  get_client_json client_id m = elim (lookup client_id m) [
    | none ↦ lists.empty_object
    | some r ↦ fault_record_to_json r
  ]

  unfoldable pub error_response : Text → Text
  error_response text = x.dump (x.object ((codes "error", x.of_text text) ∷ []))

  unfoldable pub data_response : x.Json → Text
  data_response json = x.dump (x.object ((codes "data", json) ∷ []))

  unfoldable pub show_client : x.Json → FaultMap → Run (FaultMap × Text)
  unfolding get_client_json data_response
  show_client json m = do
    client_id ← get_u32 x json "client_id"
    done (m, data_response (get_client_json client_id m))

  unfoldable pub clear_named : x.Json → FaultMap → Run (FaultMap × Text)
  unfolding data_response
  clear_named json m = do
    client_id ← get_u32 x json "client_id"
    done (
      clear_client client_id m,
      data_response (x.of_text (codes "Cleared client " ++ to_string client_id)),
    )

  unfoldable pub run_command : Text → x.Json → FaultMap → Run (FaultMap × Text)
  unfolding get_all_clients_json show_client clear_named error_response data_response
  run_command command json m =
      let named = has_value (x.member json (codes "client_id")) in
      if command == codes "list"
      then done (m, data_response (get_all_clients_json m))
      else if command == codes "show" && named
      then show_client json m
      else if command == codes "clear" && named
      then clear_named json m
      else done (m, error_response (codes "Invalid command"))

  -- The try block.
  unfoldable pub try_command : Text → FaultMap → Run (FaultMap × Text)
  unfolding run_command
  try_command bytes m = do
    json ← or_throw (x.parse bytes)
    command ← get_text x json "command"
    run_command command json m

  unfoldable pub or_error : Text → FaultMap → Run (FaultMap × Text) → FaultMap × Text
  unfolding error_response
  or_error what m (done answer) = answer
  or_error what m throws = (m, error_response what)

  -- `what` is the message of an exception.
  unfoldable pub handle_command : Text → Text → FaultMap → FaultMap × Text
  unfolding try_command or_error
  handle_command what bytes m = or_error what m (try_command bytes m)

  -- The catch block stands outside the loop: what accept, read_until or write throws ends it. The
  -- responses, oldest first.
  unfoldable pub listen : List (Text × Connection) → FaultMap → FaultMap × List Text
  unfolding handle_command
  listen [] m = (m, [])
  listen ((what, not_accepted) ∷ connections) m = (m, [])
  listen ((what, no_line) ∷ connections) m = (m, [])
  listen ((what, line bytes false) ∷ connections) m = ((handle_command what bytes m).0, [])
  listen ((what, line bytes true) ∷ connections) m =
      let (m', response) = handle_command what bytes m in
      let (m'', responses) = listen connections m' in (m'', (response ++ 10 ∷ []) ∷ responses)
