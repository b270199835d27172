-- ===== src/Tests/Screen.antt =====
-- main/status_screen.c, started, with the map shown.
use tab5_client.Sbf.Feed.{sbf_parser_init}
use tab5_client.Tests.Sbf.{toy}
use tab5_client.Tests.Memory.{memory}
use tab5_client.Tests.Leveler.{nowhere}
use tab5_client.Settings.{form_boot}
use tab5_client.Screen.Shown.{ticks, Round, refreshes, refreshes-map}
use tab5_client.Screen.Drawing.{draw_work, perim_button, press, refresh_cb}
use tab5_client.Screen.{App, map_view}
use tab5_client.Prelude.Int.{pos}
use tab5_client.Leveler.Kept.{IsLeveler}
use tab5_client.Leveler.Invariant.{start}
use tab5_client.Leveler.{current_fix, leveler_boot, leveler_init, leveler_record_set, rec_perimeter}
use tab5_client.Leveler.Status.{leveler_get}
use tab5_client.Prelude.{◌+◌, ◌*◌, ◌<◌, ◌≡◌, refl, true, List, [], ◌∷◌, arith, length}
use tab5_client.Screen.Runs.{then_event, pressed, Runs-IsLeveler, none_yet, refreshed, IsApp}

abbrev pub app_up : App
app_up = record {
  screen = record {
    has_work = true;
    has_map = true;
    has_settings = true;
    active = map_view;
    mtick = 2;
  };
  leveler = leveler_init true true leveler_boot;
  form = form_boot;
}

pub app_up-IsApp : IsApp toy app_up
app_up-IsApp = record {
  work_built = refl;
  map_built = refl;
  settings_built = refl;
  few_ticks = omega arith;
  reached = start true true;
}

abbrev refreshed_app : App
refreshed_app = (refresh_cb toy 5 nowhere nowhere nowhere app_up).0

abbrev recording : App
recording = record refreshed_app {
  leveler = leveler_record_set refreshed_app.leveler rec_perimeter;
}

Runs-IsLeveler_example : IsLeveler recording.leveler × (recording.screen.mtick < 4)
unfolding press
Runs-IsLeveler_example = Runs-IsLeveler toy memory app_up-IsApp (
    then_event (pressed nowhere 9 true perim_button)
      (then_event (refreshed 5 nowhere nowhere nowhere) none_yet refl) refl)

abbrev one_round : Round
one_round = record { now = 5; recorded = nowhere; seen = nowhere; levelled = nowhere }

abbrev three_rounds : List Round
three_rounds = one_round ∷ one_round ∷ one_round ∷ []

drawn_run : (refreshes toy three_rounds app_up).1 ≡ 1
unfolding refreshes refresh_cb
drawn_run = refl

refreshes-map_example :
    let (b, k) = refreshes toy three_rounds app_up in
    (k * 4 + b.screen.mtick ≡ app_up.screen.mtick + length three_rounds)
    × (b.screen.mtick < 4)
    × (b.leveler ≡ ticks toy three_rounds app_up.leveler)
refreshes-map_example = refreshes-map toy three_rounds app_up refl refl (omega arith)

-- A second after a block, with the position at which there is no fix.
strip_run :
    (draw_work toy 1000000 nowhere (leveler_get toy app_up.leveler nowhere)).bar_value ≡ pos 0
unfolding draw_work leveler_get leveler_init current_fix sbf_parser_init
strip_run = refl
