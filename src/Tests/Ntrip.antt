-- ===== src/Tests/Ntrip.antt =====
-- main/ntrip_client.c on short runs.
use tab5_client.Prelude.{ℕ, ◌≡◌, refl, true, false, [], ◌∷◌, arith, length}
use tab5_client.Ntrip.{
  ntrip_boot, Session, open_failed, streamed, read_loop, stream_once, creds_load, Task, ntrip_round,
  backoff_min_ms,
}
use tab5_client.Ntrip.Stream.{IsSession, stream_once-IsSession}
use tab5_client.Ntrip.Pause.{Outage, over, retry, ntrip_round-pauses_from}
use tab5_client.Tests.Memory.{blank_memory, memory}

abbrev two_reads : Session
two_reads = streamed ((1 ∷ 2 ∷ [], true) ∷ (3 ∷ [], false) ∷ (4 ∷ [], true) ∷ [])

stream_run :
    ((stream_once ntrip_boot two_reads).0.bytes_in ≡ 3)
    × ((stream_once ntrip_boot two_reads).1 ≡ 1 ∷ 2 ∷ 4 ∷ [])
unfolding stream_once read_loop ntrip_boot
stream_run = (refl, refl)

stream_once-IsSession_example :
    let (r, piped) = stream_once ntrip_boot two_reads in
    (r.connected ≡ false) × (piped ≡ 1 ∷ 2 ∷ 4 ∷ []) × IsSession ntrip_boot r (length piped)
unfolding ntrip_boot
stream_once-IsSession_example = stream_once-IsSession ntrip_boot two_reads refl (omega arith)

abbrev first_round : Task
first_round = record { st = ntrip_boot; backoff = backoff_min_ms }

-- A round whose session finds no caster.
abbrev round_of : Task → Task
round_of k = (ntrip_round memory blank_memory open_failed k).0

abbrev pause_of : Task → ℕ
pause_of k = (ntrip_round memory blank_memory open_failed k).1

boot-Outage :
    Outage memory first_round
      (pause_of first_round ∷ pause_of (round_of first_round) ∷ [])
      (round_of (round_of first_round))
unfolding ntrip_boot ntrip_round stream_once creds_load
boot-Outage =
    retry blank_memory open_failed refl refl (retry blank_memory open_failed refl refl over)

ntrip_round-pauses_from_example :
    pause_of first_round ∷ pause_of (round_of first_round) ∷ [] ≡ 1000 ∷ 2000 ∷ []
unfolding ntrip_boot
ntrip_round-pauses_from_example = ntrip_round-pauses_from memory boot-Outage refl refl refl

abbrev fed : Task
fed = record { st = record ntrip_boot { bytes_in = 500 }; backoff = backoff_min_ms }

fed-Outage :
    Outage memory fed (pause_of fed ∷ pause_of (round_of fed) ∷ []) (round_of (round_of fed))
unfolding ntrip_boot ntrip_round stream_once creds_load
fed-Outage =
    retry blank_memory open_failed refl refl (retry blank_memory open_failed refl refl over)
