-- ===== src/Checkin/TicketFile.antt =====
-- CheckinService::write_to_csv and read_from_csv together.
use pollbook_server.Prelude.{
  ◌≡◌, refl, ap, ◌∙◌, ◌≢◌, ℕ, ◌<◌, true, some, List, [], ◌∷◌, ◌++◌, arith, Text, text_eq, nat_eq,
  ◌==◌, false, if◌then◌else◌, sym, append-nil, append_assoc, Bool-cases, inl, inr,
}
use pollbook_server.Map.{Map, lookup, insert, lookup-insert}
use pollbook_server.Run.{done}
use pollbook_server.Text.{u32_mod}
use pollbook_server.Checkin.State.{Service, Ambient}
use pollbook_server.Checkin.Files.{
  generate_secret, read_ticket_line, read_ticket_lines, read_from_csv, ticket_line, write_to_csv,
}
use pollbook_server.Checkin.TicketLine.{secret-Avoids, read-ticket_line, read-append}

-- A call of write_to_csv.
pub record TicketWrite : Type 0 where
  pub ambient : Ambient
  pub ticket : Text
  pub secret : Text
  pub voter : ℕ

-- The ticket and the secret are drawn as handle_checkin_request draws them.
abbrev pub IsDrawn : TicketWrite → Type 0
IsDrawn w =
    (generate_secret w.ambient.ticket_bytes 16 ≡ done w.ticket)
    × (generate_secret w.ambient.secret_bytes 32 ≡ done w.secret)
    × (w.secret ≢ [])
    × (w.voter < u32_mod)

abbrev pub write_ticket : TicketWrite → Service → Service
write_ticket w s = write_to_csv w.ambient w.ticket w.secret w.voter s

abbrev pub write_tickets : List TicketWrite → Service → Service
write_tickets [] s = s
write_tickets (w ∷ ws) s = write_tickets ws (write_ticket w s)

-- Each write is of a ticket that is drawn, and is another one.
abbrev pub AreOthers : Text → List TicketWrite → Type 0
AreOthers ticket [] = Unit {0}
AreOthers ticket (w ∷ ws) = IsDrawn w × ((w.ticket == ticket) ≡ false) × AreOthers ticket ws

drawn-ticket_line :
    (w : TicketWrite) (m : Map Text (ℕ × Text))
    → IsDrawn w
    → read_ticket_line (ticket_line w.ticket w.secret w.voter) m
      ≡ insert w.ticket (w.voter, w.secret) m
drawn-ticket_line w m (draws_ticket, draws_secret, ne, small) =
    read-ticket_line w.ticket w.secret w.voter
      (secret-Avoids w.ambient.ticket_bytes 16 b',' w.ticket (omega arith) draws_ticket)
      (secret-Avoids w.ambient.secret_bytes 32 10 w.secret (omega arith) draws_secret) ne small m

-- The line that a write adds to the file, if the file opens.
abbrev added : TicketWrite → List Text
added w = if w.ambient.ticket_file_opens then ticket_line w.ticket w.secret w.voter ∷ [] else []

abbrev all_added : List TicketWrite → List Text
all_added [] = []
all_added (w ∷ ws) = added w ++ all_added ws

write_ticket-file :
    (w : TicketWrite) (s : Service) → (write_ticket w s).ticket_file ≡ s.ticket_file ++ added w
unfolding write_to_csv
write_ticket-file w s = elim (Bool-cases w.ambient.ticket_file_opens) [
  | inl e ↦ rw e refl
  | inr e ↦ rw e (sym (append-nil s.ticket_file))
]

write_tickets-file :
    (ws : List TicketWrite) (s : Service)
    → (write_tickets ws s).ticket_file ≡ s.ticket_file ++ all_added ws
write_tickets-file [] s = sym (append-nil s.ticket_file)
write_tickets-file (w ∷ ws) s =
    write_tickets-file ws (write_ticket w s)
    ∙ ap (λ lines. lines ++ all_added ws) (write_ticket-file w s)
    ∙ append_assoc s.ticket_file (added w) (all_added ws)

read_ticket_lines-append :
    (xs ys : List Text) (m : Map Text (ℕ × Text))
    → read_ticket_lines (xs ++ ys) m ≡ read_ticket_lines ys (read_ticket_lines xs m)
unfolding read_ticket_lines
read_ticket_lines-append [] ys m = refl
read_ticket_lines-append (x ∷ xs) ys m = read_ticket_lines-append xs ys (read_ticket_line x m)

read-added :
    (w : TicketWrite) (ticket : Text) (m : Map Text (ℕ × Text))
    → IsDrawn w
    → (w.ticket == ticket) ≡ false
    → lookup ticket (read_ticket_lines (added w) m) ≡ lookup ticket m
unfolding read_ticket_lines
read-added w ticket m drawn other = elim (Bool-cases w.ambient.ticket_file_opens) [
  | inl e ↦
      rw (e, read_ticket_lines, drawn-ticket_line w m drawn)
        (lookup-insert w.ticket ticket (w.voter, w.secret) m ∙ rw other refl)
  | inr e ↦ rw (e, read_ticket_lines) refl
]

read-all_added :
    (ws : List TicketWrite) (ticket : Text) (m : Map Text (ℕ × Text))
    → AreOthers ticket ws
    → lookup ticket (read_ticket_lines (all_added ws) m) ≡ lookup ticket m
unfolding read_ticket_lines
read-all_added [] ticket m h = refl
read-all_added (w ∷ ws) ticket m (drawn, other, others) =
    ap (lookup ticket) (read_ticket_lines-append (added w) (all_added ws) m)
    ∙ read-all_added ws ticket (read_ticket_lines (added w) m) others
    ∙ read-added w ticket m drawn other

-- A ticket that is written to the file with its voter and its secret is known, with these, to every
-- service that reads the file afterwards, whatever that service knew before, and whatever other
-- tickets have been written since: also after a restart. The tickets and secrets are drawn as
-- generate_secret draws them, no secret is empty, the voters' numbers fit their type, the later
-- tickets are different ones, and the file opens for this write and for the read.
pub ticket_survives :
    (w : TicketWrite) (later : List TicketWrite) (b : Ambient) (s t : Service)
    → IsDrawn w
    → AreOthers w.ticket later
    → w.ambient.ticket_file_opens ≡ true
    → b.ticket_file_opens ≡ true
    → t.ticket_file ≡ (write_tickets later (write_ticket w s)).ticket_file
    → lookup w.ticket (read_from_csv b t).client_tickets_map ≡ some (w.voter, w.secret)
unfolding read_from_csv
ticket_survives w later b s t drawn others opens_w opens_b file =
    let (draws_ticket, draws_secret, ne, small) = drawn in
    let line : List Text = ticket_line w.ticket w.secret w.voter ∷ [] in
    let same : t.ticket_file ≡ s.ticket_file ++ line ++ all_added later =
      file
      ∙ write_tickets-file later (write_ticket w s)
      ∙ ap (λ lines. lines ++ all_added later) (write_ticket-file w s ∙ rw opens_w refl) in
    rw (opens_b, same, read_ticket_lines-append (s.ticket_file ++ line) (all_added later))
      (read-all_added later w.ticket _ others
        ∙ read-append w.ticket w.secret w.voter
            (secret-Avoids w.ambient.ticket_bytes 16 b',' w.ticket (omega arith) draws_ticket)
            (secret-Avoids w.ambient.secret_bytes 32 10 w.secret (omega arith) draws_secret) ne
            small s.ticket_file t.client_tickets_map)
