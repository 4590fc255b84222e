-- ===== src/Checkin/TicketLine.antt =====
-- One line of ticket_validation.csv, written and read.
use pollbook_server.Prelude.{
  ◌≡◌, refl, ap, ◌∙◌, ◌≢◌, ℕ, ◌<◌, ◌/◌, ◌%◌, Option, some, List, [], ◌∷◌, ◌++◌, arith, Text,
  text_eq, nat_eq,
}
use pollbook_server.Map.{Map, lookup, insert, lookup-insert, beq_refl}
use pollbook_server.Run.{done, or_throw, Ensures-bind, Ensures-eq}
use pollbook_server.Text.{u32_mod, to_string, cut, getline}
use pollbook_server.Text.Decimal.{AllDigits, digits-AllDigits, stoul-to_string}
use pollbook_server.Checkin.Files.{
  hex_digit, hex, generate_secret, ticket_columns, add_entry, read_ticket_line, read_ticket_lines,
  ticket_line,
}

-- No byte of the text is `d`.
abbrev pub Avoids : ℕ → Text → Type 0
Avoids d [] = Unit {0}
Avoids d (c ∷ cs) = (c ≢ d) × Avoids d cs

cut-append : (d : ℕ) (s rest : Text) → Avoids d s → cut d (s ++ d ∷ rest) ≡ (s, rest)
unfolding cut
cut-append d [] rest h = ground arith
cut-append d (c ∷ cs) rest h = ground (arith, cut-append d cs rest h.1)

cut_all : (d : ℕ) (s : Text) → Avoids d s → cut d s ≡ (s, [])
unfolding cut
cut_all d [] h = refl
cut_all d (c ∷ cs) h = ground (arith, cut_all d cs h.1)

getline-append : (d : ℕ) (s rest : Text) → Avoids d s → getline d (s ++ d ∷ rest) ≡ some (s, rest)
unfolding getline
getline-append d [] rest h = ap some (cut-append d [] rest h)
getline-append d (c ∷ cs) rest h = ap some (cut-append d (c ∷ cs) rest h)

getline_all : (d : ℕ) (s : Text) → Avoids d s → s ≢ [] → getline d s ≡ some (s, [])
unfolding getline
getline_all d [] h ne = absurd (ne refl)
getline_all d (c ∷ cs) h ne = ap some (cut_all d (c ∷ cs) h)

AllDigits-Avoids : (s : Text) → AllDigits s → Avoids b',' s
AllDigits-Avoids [] h = tt
AllDigits-Avoids (c ∷ cs) h = (λ e. omega (arith, h.0.0, e), AllDigits-Avoids cs h.1)

hex_digit-Avoids : (d n : ℕ) → d < b'0' → hex_digit n ≢ d
unfolding hex_digit
hex_digit-Avoids d n h e = ground arith

hex-Avoids : (d : ℕ) (bytes : Text) → d < b'0' → Avoids d (hex bytes)
unfolding hex
hex-Avoids d [] h = tt
hex-Avoids d (b ∷ bs) h =
    (hex_digit-Avoids d (b / 16) h, (hex_digit-Avoids d (b % 16) h, hex-Avoids d bs h))

-- A secret has no byte below the digits, so no comma and no newline.
pub secret-Avoids :
    (draw : ℕ → Option Text) (size d : ℕ) (secret : Text)
    → d < b'0'
    → generate_secret draw size ≡ done secret
    → Avoids d secret
unfolding generate_secret
secret-Avoids draw size d secret low h =
    Ensures-eq (Avoids d) _ secret h
      (Ensures-bind (Avoids d) (or_throw (draw size)) _ λ bytes _. hex-Avoids d bytes low)

module _ (ticket secret : Text) (id : ℕ) (clean_ticket : Avoids b',' ticket)
    (clean_secret : Avoids 10 secret) (ne : secret ≢ []) (small : id < u32_mod) where
  columns-ticket_line :
      ticket_columns (ticket_line ticket secret id) ≡ some (ticket, to_string id, secret)
  unfolding ticket_columns ticket_line to_string
  columns-ticket_line = rw (
    getline-append b',' ticket (to_string id ++ (b',' ∷ secret)) clean_ticket,
    getline-append b',' (to_string id) secret (AllDigits-Avoids _ (digits-AllDigits 20 id)),
    getline_all 10 secret clean_secret ne,
    ticket_columns,
  )

  pub read-ticket_line :
      (m : Map Text (ℕ × Text))
      → read_ticket_line (ticket_line ticket secret id) m ≡ insert ticket (id, secret) m
  unfolding read_ticket_line add_entry
  read-ticket_line m =
      rw (columns-ticket_line, read_ticket_line, stoul-to_string id (omega arith))
        (ap (λ n. insert ticket (n, secret) m) (omega arith))

  pub read-append :
      (lines : List Text) (m : Map Text (ℕ × Text))
      → lookup ticket (read_ticket_lines (lines ++ ticket_line ticket secret id ∷ []) m)
        ≡ some (id, secret)
  unfolding read_ticket_lines
  read-append [] m =
      rw (read-ticket_line m) (lookup-insert ticket ticket (id, secret) m ∙ rw (beq_refl ticket))
  read-append (line ∷ lines) m = read-append lines (read_ticket_line line m)
