-- ===== src/Warnings.antt =====
-- include/epollbook/warning_sink.hpp, and the calls of src/log_utils.cpp on it: the warnings that the
-- logger keeps.
pub mod Query
pub mod History
pub mod Removal
use pollbook_server.Prelude.{
  ℕ, zero, suc, Bool, true, false, Option, none, some, List, [], ◌∷◌, ◌++◌, leb, if◌then◌else◌,
  Text, length,
}

-- spdlog::level::level_enum
pub data Level : Type 0 where
  trace debug info warn err critical off : Level

-- A WarningCacheSink is the list of its warnings, oldest first.
abbrev pub WarningCacheSink : Type 0
WarningCacheSink = List Text

-- warnings.erase(warnings.begin() + index)
unfoldable pub erase_at : ℕ → List Text → List Text
erase_at index [] = []
erase_at zero (w ∷ ws) = ws
erase_at (suc index) (w ∷ ws) = w ∷ erase_at index ws

unfoldable pub sink_it : Level → Text → WarningCacheSink → WarningCacheSink
sink_it warn formatted warnings = warnings ++ formatted ∷ []
sink_it _ formatted warnings = warnings

unfoldable pub remove_warning_at : ℕ → WarningCacheSink → WarningCacheSink × Bool
unfolding erase_at
remove_warning_at index warnings =
    if leb (length warnings) index then (warnings, false) else (erase_at index warnings, true)

-- warning_sink of LogUtils: a pointer, null where the logger was made without the cache.
abbrev pub WarningCache : Type 0
WarningCache = Option WarningCacheSink

unfoldable pub make_default_logger : Bool → WarningCache → WarningCache
make_default_logger true warning_sink = some []
make_default_logger false warning_sink = warning_sink

unfoldable pub log_message : Level → Text → WarningCache → WarningCache
unfolding sink_it
log_message level formatted none = none
log_message level formatted (some sink) = some (sink_it level formatted sink)

unfoldable pub clear_warning_cache : WarningCache → WarningCache
clear_warning_cache none = none
clear_warning_cache (some sink) = some []

unfoldable pub remove_warning_at_index : ℕ → WarningCache → WarningCache × Bool
unfolding remove_warning_at
remove_warning_at_index index none = (none, false)
remove_warning_at_index index (some sink) =
    let (sink', removed) = remove_warning_at index sink in (some sink', removed)

unfoldable pub get_warning_cache_snapshot : WarningCache → List Text
get_warning_cache_snapshot none = []
get_warning_cache_snapshot (some sink) = sink
