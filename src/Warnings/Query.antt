-- ===== src/Warnings/Query.antt =====
-- src/warning_query_server.cpp: the commands that read and change the warnings. Every socket has its
-- own session; the handlers run one after the other on one io_context.
use pollbook_server.Prelude.{
  ℕ, Bool, true, false, Option, none, some, List, [], ◌∷◌, ◌++◌, ◌==◌, text_eq, nat_eq,
  if◌then◌else◌, Text, codes,
}
use pollbook_server.Text.{stoul}
use pollbook_server.External.{External}
use pollbook_server.Warnings.{
  Level, WarningCache, log_message, clear_warning_cache, remove_warning_at_index,
  get_warning_cache_snapshot,
}

-- What a handler starts: the next accept, the read of a line, and the write of a response.
pub data QueryEffect : Type 0 where
  accept_next : QueryEffect
  read_line : ℕ → QueryEffect
  write_response : ℕ → Text → QueryEffect

-- Completions, by the number of the socket, and the messages that are logged between them.
pub data QueryEvent : Type 0 where
  accepted : ℕ → Bool → QueryEvent
  line_read : ℕ → Option Text → QueryEvent
  response_written : ℕ → Bool → QueryEvent
  logged : Level → Text → QueryEvent

pub record WarningQueryServer : Type 0 where
  pub warning_cache : WarningCache
  -- newest first
  pub started : List QueryEffect

unfoldable pub initiate : QueryEffect → WarningQueryServer → WarningQueryServer
initiate e s = record s { started = e ∷ s.started }

-- command.rfind(prefix, 0) == 0, with command.substr(prefix.size())
unfoldable pub after_prefix : Text → Text → Option Text
after_prefix [] command = some command
after_prefix (p ∷ ps) [] = none
after_prefix (p ∷ ps) (c ∷ cs) = let rest = after_prefix ps cs in if p == c then rest else none

-- `of_texts` gives the JSON array of a std::vector<std::string>.
module _ (x : External) (of_texts : List Text → x.Json) where
  unfoldable pub removal_response : ℕ → Bool → Text
  removal_response index true = x.dump (
      x.object
        ((codes "status", x.of_text (codes "removed")) ∷ (codes "index", x.of_nat index) ∷ []))
  removal_response index false =
      x.dump (x.object ((codes "error", x.of_text (codes "invalid index")) ∷ []))

  -- What std::stoul throws is caught.
  unfoldable pub remove_warning : Option ℕ → WarningCache → WarningCache × Text
  unfolding removal_response
  remove_warning none cache = (cache, codes "{\"error\": \"invalid index format\"}")
  remove_warning (some index) cache =
      let (cache', success) = remove_warning_at_index index cache in
      (cache', removal_response index success)

  unfoldable pub remove_or_reject : Option Text → WarningCache → WarningCache × Text
  unfolding remove_warning
  remove_or_reject none cache = (cache, codes "{\"error\": \"unknown command\"}")
  remove_or_reject (some index_str) cache = remove_warning (stoul index_str) cache

  unfoldable pub respond : Text → WarningCache → WarningCache × Text
  unfolding after_prefix remove_or_reject
  respond command cache =
      if command == codes "get_warnings"
      then (
        cache,
        x.dump (x.object ((codes "warnings", of_texts (get_warning_cache_snapshot cache)) ∷ [])),
      )
      else if command == codes "clear_warnings"
      then (
        clear_warning_cache cache,
        x.dump (x.object ((codes "status", x.of_text (codes "ok")) ∷ [])),
      )
      else remove_or_reject (after_prefix (codes "remove_warning ") command) cache

  -- The completion of async_accept.
  unfoldable pub handle_accept : ℕ → Bool → WarningQueryServer → WarningQueryServer
  unfolding initiate
  handle_accept socket true s = initiate accept_next (initiate (read_line socket) s)
  handle_accept socket false s = initiate accept_next s

  -- The completion of async_read_until in handle_session. Where it fails the session ends.
  unfoldable pub handle_line : ℕ → Option Text → WarningQueryServer → WarningQueryServer
  unfolding respond initiate
  handle_line socket none s = s
  handle_line socket (some command) s =
      let (cache, response) = respond command s.warning_cache in
      initiate (write_response socket (response ++ 10 ∷ [])) (record s { warning_cache = cache })

  -- The completion of async_write in handle_session.
  unfoldable pub handle_written : ℕ → Bool → WarningQueryServer → WarningQueryServer
  unfolding initiate
  handle_written socket true s = initiate (read_line socket) s
  handle_written socket false s = s

  unfoldable pub query_step : QueryEvent → WarningQueryServer → WarningQueryServer
  unfolding handle_accept handle_line handle_written
  query_step (accepted socket ok) s = handle_accept socket ok s
  query_step (line_read socket line) s = handle_line socket line s
  query_step (response_written socket ok) s = handle_written socket ok s
  query_step (logged level formatted) s = record s {
    warning_cache = log_message level formatted s.warning_cache;
  }

  unfoldable pub query_run : List QueryEvent → WarningQueryServer → WarningQueryServer
  unfolding query_step
  query_run [] s = s
  query_run (e ∷ events) s = query_run events (query_step e s)
