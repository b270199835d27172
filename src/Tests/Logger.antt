-- ===== src/Tests/Logger.antt =====
-- main/logger.c on a card with one file.
use tab5_client.Tests.Sbf.{toy}
use tab5_client.Tests.Leveler.{nowhere}
use tab5_client.Str.{dec, eq_bytes}
use tab5_client.Prelude.Int.{pos}
use tab5_client.Logger.{Card, Logger, log_name, logger_boot}
use tab5_client.Leveler.{mode_none}
use tab5_client.Leveler.Status.{LevelerStatus}
use tab5_client.Leveler.{rec_off}
use tab5_client.Prelude.{◌≡◌, refl, true, false, some, List, [], ◌∷◌, codes}
use tab5_client.Logger.Discipline.{set_logging, run-replay, second, run, replay, disk_of, Event}

-- A card that holds the log of number 0.
abbrev used_card : Card
used_card = record { stats = λ p. eq_bytes p (codes "/sdcard/lvl_000.csv"); opens = λ p. true }

abbrev wanting : Logger
wanting = record logger_boot { mounted = true; want_logging = true }

abbrev no_status : LevelerStatus
no_status = record {
  has_origin = false;
  mode = mode_none;
  rec = rec_off;
  survey_points = 0;
  boundary_pts = 0;
  area_m2 = 0;
  fix_usable = false;
  have_delta = false;
  delta_m = 0;
  state = pos 0;
  vol_valid = false;
  cut_m3 = 0;
  fill_m3 = 0;
  net_m3 = 0;
}

abbrev two_events : List (Event toy)
two_events =
    second used_card nowhere no_status ∷ set_logging false ∷ second used_card nowhere no_status ∷ []

names_run : log_name 7 ≡ codes "/sdcard/lvl_007.csv"
unfolding log_name dec
names_run = refl

run-replay_example :
    let (r, os) = run toy wanting two_events in replay (disk_of wanting) os ≡ some (disk_of r)
run-replay_example = run-replay toy two_events wanting
