-- ===== src/Faults/Control.antt =====
-- What the commands of the fault tracker's listener do to the record of faults.
use pollbook_server.Prelude.{
  ◌≡◌, if◌then◌else◌, Option, refl, ℕ, ◌<◌, ◌*◌, ◌/◌, Bool, true, false, ◌&&◌, none, some, List, [],
  ◌∷◌, ◌++◌, ◌==◌, text_eq, nat_eq, text_beq, text_beq_iff, Text, codes,
}
use pollbook_server.Map.{lookup, lookup-erase}
use pollbook_server.Text.{u64_mod}
use pollbook_server.Run.{Run, done, throws, or_throw, ◌>>=◌}
use pollbook_server.External.{External, ExternalLaws, assigned, at, get_u64, get_u32, get_text}
use pollbook_server.Faults.{FaultyClientRecord, FaultMap, clear_client}
use pollbook_server.Faults.Commands.{
  JsonLists, Connection, not_accepted, no_line, line, has_value, fault_record_to_json,
  fault_record_from_json, show_client, clear_named, run_command, try_command, or_error,
  handle_command, listen,
}

module _ (x : External) (lists : JsonLists x) (per_second : ℕ) where
  -- The client whom the bytes name in a command to clear it.
  abbrev pub client_to_clear : Text → Run ℕ
  client_to_clear bytes = do
    json ← or_throw (x.parse bytes)
    command ← get_text x json "command"
    if command == codes "clear" && has_value (x.member json (codes "client_id"))
        then get_u32 x json "client_id"
        else throws

  -- The record of the client `c` when the client named, if one is, has been cleared.
  abbrev pub record_after : Run ℕ → ℕ → FaultMap → Option FaultyClientRecord
  record_after (done id) c m = if id == c then none else lookup c m
  record_after throws c m = lookup c m

  module _ (what : Text) (m : FaultMap) (c : ℕ) where
    after : Run (FaultMap × Text) → Option FaultyClientRecord
    after r = lookup c (or_error x lists per_second what m r).0

    show_keeps : (id : Run ℕ) (f : ℕ → Text) → after (id >>= λ n. done (m, f n)) ≡ lookup c m
    unfolding after or_error
    show_keeps (done n) f = refl
    show_keeps throws f = refl

    clear_removes :
        (id : Run ℕ) (f : ℕ → Text)
        → after (id >>= λ n. done (clear_client n m, f n)) ≡ record_after id c m
    unfolding after or_error clear_client
    clear_removes (done n) f = lookup-erase n c m
    clear_removes throws f = refl

    -- The tests of the three commands, which exclude each other.
    chosen :
        (json : x.Json) (is_list is_show is_clear named : Bool) (listed error : Text)
        → (is_list ≡ true → is_clear ≡ false)
        → (is_show ≡ true → is_clear ≡ false)
        → after (
            if is_list
            then done (m, listed)
            else if is_show && named
            then show_client x lists per_second json m
            else if is_clear && named
            then clear_named x lists per_second json m
            else done (m, error))
          ≡ record_after (if is_clear && named then get_u32 x json "client_id" else throws) c m
    unfolding after or_error show_client clear_named
    chosen json true is_show is_clear named listed error l s = rw (l refl) refl
    chosen json false true is_clear true listed error l s =
        rw (s refl) (show_keeps (get_u32 x json "client_id") _)
    chosen json false true is_clear false listed error l s = rw (s refl) refl
    chosen json false false true true listed error l s =
        clear_removes (get_u32 x json "client_id") _
    chosen json false false true false listed error l s = refl
    chosen json false false false named listed error l s = refl

    differs :
        (command other : Text)
        → text_beq other (codes "clear") ≡ false
        → (command == other) ≡ true
        → (command == codes "clear") ≡ false
    differs command other d h = rw ((text_beq_iff command other).0 h) d

  -- Whatever bytes arrive at the listener, the client whom they name in a command to clear it has no
  -- record of faults then, and every other client keeps the record it had. Bytes that are no JSON,
  -- no command to clear, or give no number name nobody, and change nothing.
  pub command_exact :
      (what bytes : Text) (m : FaultMap) (c : ℕ)
      → lookup c (handle_command x lists per_second what bytes m).0
        ≡ record_after (client_to_clear bytes) c m
  unfolding handle_command try_command run_command after or_error text_beq
  command_exact what bytes m c = parsed (or_throw (x.parse bytes))
    where
      commanded :
          (json : x.Json) (command : Run Text)
          → after what m c (command >>= λ s. run_command x lists per_second s json m)
            ≡ record_after
                (command >>= λ s.
                  if s == codes "clear" && has_value (x.member json (codes "client_id"))
                  then get_u32 x json "client_id"
                  else throws)
                c
                m
      commanded json throws = refl
      commanded json (done s) =
          chosen what m c json (s == codes "list") (s == codes "show") (s == codes "clear")
            (has_value (x.member json (codes "client_id"))) _ _
            (differs what m c s (codes "list") refl) (differs what m c s (codes "show") refl)

      parsed :
          (json : Run x.Json)
          → after what m c
              (json >>= λ j. get_text x j "command" >>= λ s. run_command x lists per_second s j m)
            ≡ record_after
                (json >>= λ j. get_text x j "command" >>= λ s.
                  if s == codes "clear" && has_value (x.member j (codes "client_id"))
                  then get_u32 x j "client_id"
                  else throws)
                c
                m
      parsed throws = refl
      parsed (done j) = commanded j (get_text x j "command")

  -- A record that is printed and read back keeps its descriptions, and its time to the second, if
  -- the number of seconds is a 64-bit number.
  pub fault_record_round_trip :
      (laws : ExternalLaws x) (r : FaultyClientRecord)
      → ((texts : List Text) → lists.as_texts (lists.of_texts texts) ≡ some texts)
      → r.last_report_time / per_second < u64_mod
      → fault_record_from_json x lists per_second (fault_record_to_json x lists per_second r)
        ≡ done (record r { last_report_time = r.last_report_time / per_second * per_second })
  unfolding fault_record_from_json fault_record_to_json at get_u64 assigned text_beq
  fault_record_round_trip laws r inverse fits = rw (
    laws.member-object _ (codes "lastReportTime"),
    laws.as_u64-of_nat _ fits,
    laws.member-object _ (codes "faultDescriptions"),
    inverse r.fault_descriptions,
  )

-- The connection cannot be accepted, or sends no line, or does not take the response.
abbrev pub IsBroken : Connection → Type 0
IsBroken not_accepted = Unit
IsBroken no_line = Unit
IsBroken (line bytes written) = written ≡ false

module _ (x : External) (lists : JsonLists x) (per_second : ℕ) where
  -- After one connection that is closed before it has sent a line, or that takes no response, the
  -- listener answers nobody any more, and no command is carried out.
  pub broken_ends_listener :
      (before after : List (Text × Connection)) (what : Text) (broken : Connection) (m : FaultMap)
      → IsBroken broken
      → listen x lists per_second (before ++ (what, broken) ∷ after) m
        ≡ listen x lists per_second (before ++ (what, broken) ∷ []) m
  unfolding listen
  broken_ends_listener [] after what not_accepted m h = refl
  broken_ends_listener [] after what no_line m h = refl
  broken_ends_listener [] after what (line bytes false) m h = refl
  broken_ends_listener [] after what (line bytes true) m h = cc
  broken_ends_listener ((w, not_accepted) ∷ before) after what broken m h = refl
  broken_ends_listener ((w, no_line) ∷ before) after what broken m h = refl
  broken_ends_listener ((w, line bytes false) ∷ before) after what broken m h = refl
  broken_ends_listener ((w, line bytes true) ∷ before) after what broken m h = rw (
      broken_ends_listener before after what broken (handle_command x lists per_second w bytes m).0
        h)
