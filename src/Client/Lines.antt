-- ===== src/Client/Lines.antt =====
-- The two lines of a message of the services, as the program sends and reads them.
use pollbook_server.Prelude.{
  ◌≡◌, sym, ◌<◌, ◌-◌, [], ◌∷◌, ◌++◌, arith, Text, length, length-append, append_assoc,
}
use pollbook_server.Text.{to_string, u64_mod}
use pollbook_server.Text.SizeLine.{signed_below-size_line}
use pollbook_server.Checkin.Requests.{frame}
use pollbook_server.Client.{extract_size}

-- The line with the size of a message, and the line that follows it.
abbrev pub size_line : Text → Text
size_line message = to_string (length message) ++ 10 ∷ []

abbrev pub payload_line : Text → Text
payload_line message = message ++ 10 ∷ []

pub frame-lines : (message : Text) → frame message ≡ size_line message ++ payload_line message
unfolding frame
frame-lines message = sym (append_assoc (to_string (length message)) (10 ∷ []) _)

pub length-payload_line : (message : Text) → length (payload_line message) - 1 ≡ length message
length-payload_line message = omega (arith, length-append {0} message (10 ∷ []))

-- What `stream >> size` reads.
pub extract_size-size_line :
    (message : Text) → length message < u64_mod → extract_size (size_line message) ≡ length message
unfolding extract_size
extract_size-size_line message h = rw (signed_below-size_line (length message) h, extract_size)
