-- ===== src/Warnings/History.antt =====
-- The warnings that WarningCacheSink holds, in a run of the query server.
use pollbook_server.Prelude.{
  ◌≡◌, refl, sym, subst, inl, inr, ℕ, zero, suc, Bool-cases, true, false, Option, none, some, List,
  [], ◌∷◌, ◌++◌, append-nil, append_assoc, leb, ◌==◌, text_eq, nat_eq, Text, codes, length,
}
use pollbook_server.Text.{stoul}
use pollbook_server.External.{External}
use pollbook_server.Warnings.{
  make_default_logger, Level, trace, debug, info, warn, err, critical, off, WarningCache, sink_it,
  erase_at, remove_warning_at, log_message, clear_warning_cache, remove_warning_at_index,
  make_default_logger,
}
use pollbook_server.Warnings.Query.{
  QueryEvent, accepted, line_read, response_written, logged, WarningQueryServer, initiate,
  after_prefix, remove_warning, remove_or_reject, respond, handle_accept, handle_line,
  handle_written, query_step, query_run,
}

-- The first list is what is left of the second, in its order.
pub data IsSubsequence : List Text → List Text → Type 0 where
  nothing : IsSubsequence [] []
  keep : (w : Text) {xs ys : List Text} → IsSubsequence xs ys → IsSubsequence (w ∷ xs) (w ∷ ys)
  skip : (w : Text) {xs ys : List Text} → IsSubsequence xs ys → IsSubsequence xs (w ∷ ys)

empty-IsSubsequence : (ys : List Text) → IsSubsequence [] ys
empty-IsSubsequence [] = nothing
empty-IsSubsequence (y ∷ ys) = skip y (empty-IsSubsequence ys)

self-IsSubsequence : (ys : List Text) → IsSubsequence ys ys
self-IsSubsequence [] = nothing
self-IsSubsequence (y ∷ ys) = keep y (self-IsSubsequence ys)

append-IsSubsequence :
    (zs : List Text) {xs ys : List Text} → IsSubsequence xs ys → IsSubsequence (xs ++ zs) (ys ++ zs)
append-IsSubsequence zs nothing = self-IsSubsequence zs
append-IsSubsequence zs (keep w h) = keep w (append-IsSubsequence zs h)
append-IsSubsequence zs (skip w h) = skip w (append-IsSubsequence zs h)

erase_at-IsSubsequence :
    (index : ℕ) {xs ys : List Text} → IsSubsequence xs ys → IsSubsequence (erase_at index xs) ys
unfolding erase_at
erase_at-IsSubsequence index nothing = nothing
erase_at-IsSubsequence zero (keep w h) = skip w h
erase_at-IsSubsequence (suc index) (keep w h) = keep w (erase_at-IsSubsequence index h)
erase_at-IsSubsequence index (skip w h) = skip w (erase_at-IsSubsequence index h)

-- There is a cache, and what it holds has been logged.
abbrev pub HoldsLogged : WarningCache → List Text → Type 0
HoldsLogged none past = ⊥
HoldsLogged (some warnings) past = IsSubsequence warnings past

-- The warnings that an event logs.
abbrev pub warned : QueryEvent → List Text
warned (logged warn formatted) = formatted ∷ []
warned _ = []

abbrev pub all_warned : List QueryEvent → List Text
all_warned [] = []
all_warned (e ∷ events) = warned e ++ all_warned events

removal-HoldsLogged :
    (index : ℕ) (cache : WarningCache) (past : List Text)
    → HoldsLogged cache past
    → HoldsLogged (remove_warning_at_index index cache).0 past
unfolding remove_warning_at_index remove_warning_at
removal-HoldsLogged index none past h = h
removal-HoldsLogged index (some warnings) past h = elim (Bool-cases (leb (length warnings) index)) [
  | inl out ↦ rw out h
  | inr inside ↦ rw inside (erase_at-IsSubsequence index h)
]

clear-HoldsLogged :
    (cache : WarningCache) (past : List Text)
    → HoldsLogged cache past
    → HoldsLogged (clear_warning_cache cache) past
unfolding clear_warning_cache
clear-HoldsLogged none past h = h
clear-HoldsLogged (some warnings) past h = empty-IsSubsequence past

log-HoldsLogged :
    (formatted : Text) (cache : WarningCache) (past : List Text)
    → HoldsLogged cache past
    → HoldsLogged (log_message warn formatted cache) (past ++ formatted ∷ [])
unfolding log_message sink_it
log-HoldsLogged formatted none past h = h
log-HoldsLogged formatted (some warnings) past h = append-IsSubsequence (formatted ∷ []) h

quiet :
    (level : Level) (formatted : Text) (cache : WarningCache)
    → warned (logged level formatted) ≡ []
    → log_message level formatted cache ≡ cache
unfolding log_message sink_it
quiet warn formatted cache h = cc
quiet trace formatted none h = refl
quiet trace formatted (some w) h = refl
quiet debug formatted none h = refl
quiet debug formatted (some w) h = refl
quiet info formatted none h = refl
quiet info formatted (some w) h = refl
quiet err formatted none h = refl
quiet err formatted (some w) h = refl
quiet critical formatted none h = refl
quiet critical formatted (some w) h = refl
quiet off formatted none h = refl
quiet off formatted (some w) h = refl

-- Nothing was logged.
unchanged :
    (cache : WarningCache) (past : List Text)
    → HoldsLogged cache past
    → HoldsLogged cache (past ++ [])
unchanged cache past h = subst (HoldsLogged cache) (sym (append-nil past)) h

message-HoldsLogged :
    (level : Level) (formatted : Text) (cache : WarningCache) (past : List Text)
    → HoldsLogged cache past
    → HoldsLogged (log_message level formatted cache) (past ++ warned (logged level formatted))
message-HoldsLogged warn f cache past h = log-HoldsLogged f cache past h
message-HoldsLogged trace f cache past h = rw (quiet trace f cache refl) (unchanged cache past h)
message-HoldsLogged debug f cache past h = rw (quiet debug f cache refl) (unchanged cache past h)
message-HoldsLogged info f cache past h = rw (quiet info f cache refl) (unchanged cache past h)
message-HoldsLogged err f cache past h = rw (quiet err f cache refl) (unchanged cache past h)
message-HoldsLogged critical f cache past h =
    rw (quiet critical f cache refl) (unchanged cache past h)
message-HoldsLogged off f cache past h = rw (quiet off f cache refl) (unchanged cache past h)

module _ (x : External) (of_texts : List Text → x.Json) where
  remove-HoldsLogged :
      (index_str : Option Text) (cache : WarningCache) (past : List Text)
      → HoldsLogged cache past
      → HoldsLogged (remove_or_reject x of_texts index_str cache).0 past
  unfolding remove_or_reject remove_warning
  remove-HoldsLogged none cache past h = h
  remove-HoldsLogged (some index_str) cache past h = indexed (stoul index_str)
    where
      indexed : (index : Option ℕ) → HoldsLogged (remove_warning x of_texts index cache).0 past
      indexed none = h
      indexed (some index) = removal-HoldsLogged index cache past h

  respond-HoldsLogged :
      (command : Text) (cache : WarningCache) (past : List Text)
      → HoldsLogged cache past
      → HoldsLogged (respond x of_texts command cache).0 past
  unfolding respond
  respond-HoldsLogged command cache past h = elim (Bool-cases (command == codes "get_warnings")) [
    | inl get ↦ rw get h
    | inr other ↦ rw other (elim (Bool-cases (command == codes "clear_warnings")) [
      | inl clear ↦ rw clear (clear-HoldsLogged cache past h)
      | inr remove ↦
          rw remove
            (remove-HoldsLogged (after_prefix (codes "remove_warning ") command) cache past h)
    ])
  ]

  step-HoldsLogged :
      (e : QueryEvent) (s : WarningQueryServer) (past : List Text)
      → HoldsLogged s.warning_cache past
      → HoldsLogged (query_step x of_texts e s).warning_cache (past ++ warned e)
  unfolding query_step handle_accept handle_line handle_written initiate
  step-HoldsLogged (accepted socket true) s past h = unchanged _ past h
  step-HoldsLogged (accepted socket false) s past h = unchanged _ past h
  step-HoldsLogged (line_read socket none) s past h = unchanged _ past h
  step-HoldsLogged (line_read socket (some command)) s past h =
      unchanged _ past (respond-HoldsLogged command s.warning_cache past h)
  step-HoldsLogged (response_written socket true) s past h = unchanged _ past h
  step-HoldsLogged (response_written socket false) s past h = unchanged _ past h
  step-HoldsLogged (logged level formatted) s past h =
      message-HoldsLogged level formatted s.warning_cache past h

  run-HoldsLogged :
      (events : List QueryEvent) (s : WarningQueryServer) (past : List Text)
      → HoldsLogged s.warning_cache past
      → HoldsLogged (query_run x of_texts events s).warning_cache (past ++ all_warned events)
  unfolding query_run
  run-HoldsLogged [] s past h = unchanged _ past h
  run-HoldsLogged (e ∷ events) s past h = rw⁻¹ (append_assoc past (warned e) (all_warned events)) (
      run-HoldsLogged events (query_step x of_texts e s) (past ++ warned e)
        (step-HoldsLogged e s past h))

  -- Whatever commands arrive, in whatever order with the messages, the cache holds warnings that
  -- were logged since it was made, each as often as it was logged at most, in the order in which
  -- they were logged, and no message of another level.
  pub cache-HoldsLogged :
      (events : List QueryEvent) (s : WarningQueryServer)
      → s.warning_cache ≡ make_default_logger true none
      → HoldsLogged (query_run x of_texts events s).warning_cache (all_warned events)
  unfolding make_default_logger
  cache-HoldsLogged events s fresh = run-HoldsLogged events s [] (rw fresh nothing)
