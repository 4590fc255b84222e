-- ===== src/Tests/Authority.antt =====
-- Who may check a voter in.
use pollbook_server.Tests.{everything}
use pollbook_server.Tests.Checkins.{
  opened, waiting, finished, opens, opened_runs, finished_status, waiting_status,
}
use pollbook_server.Prelude.{◌≡◌, refl, ℕ, nat_eq, true, some, List, [], ◌∷◌, Text}
use pollbook_server.Map.{lookup}
use pollbook_server.Run.{done}
use pollbook_server.Checkin.State.{Endpoint}
use pollbook_server.Checkin.Files.{load_trusted_clients}
use pollbook_server.Checkin.Network.{contains, payload_read, received, step}
use pollbook_server.Checkin.Roster.Authority.{only_trusted_check_in}
use pollbook_server.Samples.Polls.{
  polls, settings, at_noon, files, kiosk_arrives, device_arrives, kiosk_asks, device_asks,
}

device_step : step polls settings at_noon device_asks.1 waiting ≡ done finished
unfolding everything
device_step = refl

only_trusted_check_in_example :
    (ip : Endpoint) × (size : ℕ) × (bytes : Text) × (id : ℕ) × (lines : List Text) × (device_asks.1
      ≡ payload_read ip size (received bytes))
    × (lookup ip waiting.client_id_map ≡ some id)
    × (files.trusted_clients_lines ≡ some lines)
    × (contains (load_trusted_clients lines) id ≡ true)
only_trusted_check_in_example =
    only_trusted_check_in polls settings files (kiosk_arrives ∷ device_arrives ∷ kiosk_asks ∷ [])
      opened waiting finished at_noon device_asks.1 100 opens opened_runs device_step
      (λ p. cc (p, waiting_status)) finished_status
