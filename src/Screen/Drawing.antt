-- ===== src/Screen/Drawing.antt =====
-- main/status_screen.c: what a refresh draws, and what the buttons do.
use tab5_client.Map.{store}
use tab5_client.Str.{dec}
use tab5_client.Settings.{settings_view_refresh}
use tab5_client.Screen.{
  is_survey, button_colour, clamp_bar, c_warn, c_idle, no_delta_text, mode_label, c_ok, c_fill,
  in_buf, f64_100, c_cut, App, Drawn, Work, c_bad, c_track, is_fresh, is_map_view, is_settings_view,
  map_drawn, map_view, nothing_drawn, settings_view, work_drawn, work_view,
}
use tab5_client.Sbf.Labels.{sbf_pvt_mode_str}
use tab5_client.Prelude.Int.{ltb_ℤ, pos, ℤ}
use tab5_client.Nvs.{Nvs}
use tab5_client.Leveler.{
  Leveler, is_perimeter, leveler_compute_volumes, leveler_fit_balance, leveler_record_set,
  leveler_record_tick, leveler_set_flat_here, leveler_survey_clear, rec_off, rec_perimeter,
  rec_survey,
}
use tab5_client.Leveler.Status.{LevelerStatus, leveler_get}
use tab5_client.Gnss.{GnssSnapshot}
use tab5_client.Float.{F64, Fpu, is_nan32, is_nan64}
use tab5_client.Prelude.{
  ℕ, ◌+◌, Bool, true, false, not, ◌&&◌, ◌||◌, Option, none, some, [], ◌++◌, leb, if◌then◌else◌,
  Bytes, codes,
}

module _ (fpu : Fpu) where
  -- The strip of the fix, with its colour.
  unfoldable pub status_strip : ℕ → GnssSnapshot → Bytes × ℕ
  status_strip now g =
      if not (is_fresh now g.last_block_us)
      then (codes "no SBF", c_bad)
      else if g.pvt_valid
      then (
        in_buf (
            sbf_pvt_mode_str g.pvt.mode_type
            ++ (codes "  sv"
                ++ (dec (pos g.pvt.nr_sv)
                    ++ (if is_nan32 g.pvt.v_accuracy_m
                        then []
                        else codes "  +/-"
                          ++ (fpu.f64_fmt 0
                                (fpu.f64_mul (fpu.f64_of_f32 g.pvt.v_accuracy_m) f64_100)
                              ++ codes "cm"))))),
        if leb 3 g.pvt.mode_type then c_ok else c_warn,
      )
      else (codes "waiting for fix...", c_warn)

  abbrev delta_text : ℤ → F64 → Bytes
  delta_text state cm =
      if ltb_ℤ (pos 0) state
      then in_buf (codes "CUT  " ++ (fpu.f64_fmt 0 cm ++ codes " cm"))
      else if ltb_ℤ state (pos 0)
      then in_buf (codes "FILL " ++ (fpu.f64_fmt 0 (fpu.f64_neg cm) ++ codes " cm"))
      else codes "ON GRADE"

  abbrev pub delta_colour : ℤ → ℕ
  delta_colour state =
      if ltb_ℤ (pos 0) state then c_cut else if ltb_ℤ state (pos 0) then c_fill else c_ok

  -- The line of the survey and the plane.
  abbrev survey_line : GnssSnapshot → LevelerStatus → Bytes
  survey_line g lv = in_buf (
      mode_label lv.mode
      ++ (codes "  "
          ++ (dec (pos lv.survey_points)
              ++ (codes " pts"
                  ++ (if g.pvt_valid && not (is_nan64 g.pvt.height_m)
                      then codes "  h" ++ (fpu.f64_fmt 2 g.pvt.height_m ++ codes "m")
                      else [])))))

  -- The widgets, from the snapshot and the leveler's status.
  unfoldable pub draw_work : ℕ → GnssSnapshot → LevelerStatus → Work
  unfolding status_strip
  draw_work now g lv =
      let (text, colour) = status_strip now g in
      let cm = fpu.f64_mul lv.delta_m f64_100 in
      record {
        status_text = text;
        status_colour = colour;
        cutfill_text = if lv.have_delta then delta_text lv.state cm else no_delta_text lv.mode;
        cutfill_colour = if lv.have_delta then delta_colour lv.state else c_idle;
        bar_value = if lv.have_delta then clamp_bar (fpu.f64_lround cm) else pos 0;
        bar_colour = if lv.have_delta then delta_colour lv.state else c_track;
        mode_text = survey_line g lv;
        perim_colour = button_colour (is_perimeter lv.rec);
        field_colour = button_colour (is_survey lv.rec);
      }

  -- With the snapshots that the recorder, the screen and the leveler's status take.
  unfoldable pub refresh_cb : ℕ → GnssSnapshot → GnssSnapshot → GnssSnapshot → App → App × Drawn
  refresh_cb now gt g gl a =
      let l = leveler_record_tick fpu a.leveler gt in
      let s = a.screen in
      if s.has_map && is_map_view s.active
      then if leb 4 (s.mtick + 1)
        then (record a { leveler = l; screen = record s { mtick = 0 } }, map_drawn)
        else (record a { leveler = l; screen = record s { mtick = s.mtick + 1 } }, nothing_drawn)
      else if s.has_settings && is_settings_view s.active
      then (record a { leveler = l }, nothing_drawn)
      else (record a { leveler = l }, work_drawn (draw_work now g (leveler_get fpu l gl)))

  -- `lv_screen_load`, if the lock is got.
  abbrev pub load_view : Bool → Bool → App → Leveler → App × Drawn
  load_view locks show a l =
      if locks
      then (
        record a {
          leveler = l;
          screen = record a.screen { active = if show then map_view else work_view };
        },
        if show then map_drawn else nothing_drawn,
      )
      else (record a { leveler = l }, nothing_drawn)

  abbrev pub load_computed : Bool → App → Option (Leveler × Bool) → Option (App × Drawn)
  load_computed locks a none = none
  load_computed locks a (some (l, ok)) = some (load_view locks true a l)

  -- With the fuel of the volumes.
  unfoldable pub status_screen_show_map : ℕ → Bool → Bool → App → Option (App × Drawn)
  status_screen_show_map fuel locks show a =
      if not a.screen.has_map || not a.screen.has_work
      then some (a, nothing_drawn)
      else if show
      then load_computed locks a (leveler_compute_volumes fpu fuel a.leveler)
      else some (load_view locks false a a.leveler)

  abbrev pub with_computed : App → Option (Leveler × Bool) → Option (App × Drawn)
  with_computed a none = none
  with_computed a (some (l, ok)) = some (record a { leveler = l }, map_drawn)

  -- The map's button for the volumes, with their fuel.
  unfoldable pub on_vol : ℕ → App → Option (App × Drawn)
  on_vol fuel a = with_computed a (leveler_compute_volumes fpu fuel a.leveler)

  -- The buttons of the work screen.
  pub data Button : Type 0 where
    perim_button field_button stop_button flat_button fit_button clear_button : Button
    map_button : Button

  -- With the snapshot that a flat target takes, and the fuel and the lock of the map.
  unfoldable pub press : GnssSnapshot → ℕ → Bool → App → Button → Option (App × Drawn)
  unfolding status_screen_show_map
  press g fuel locks a perim_button =
      some (record a { leveler = leveler_record_set a.leveler rec_perimeter }, nothing_drawn)
  press g fuel locks a field_button =
      some (record a { leveler = leveler_record_set a.leveler rec_survey }, nothing_drawn)
  press g fuel locks a stop_button =
      some (record a { leveler = leveler_record_set a.leveler rec_off }, nothing_drawn)
  press g fuel locks a flat_button =
      some (record a { leveler = (leveler_set_flat_here fpu a.leveler g).0 }, nothing_drawn)
  press g fuel locks a fit_button =
      some (record a { leveler = (leveler_fit_balance fpu a.leveler).0 }, nothing_drawn)
  press g fuel locks a clear_button =
      some (record a { leveler = leveler_survey_clear a.leveler }, nothing_drawn)
  press g fuel locks a map_button = status_screen_show_map fuel locks true a

module _ {S : Type 0} (nvs : Nvs S) where
  unfoldable pub status_screen_show_settings : Bool → S → App → App
  status_screen_show_settings locks s a =
      if not a.screen.has_settings || not locks then a else record a {
        form = settings_view_refresh nvs s a.form;
        screen = record a.screen { active = settings_view };
      }

module _ (fpu : Fpu) {S : Type 0} (nvs : Nvs S) where
  -- With whether the port, the display and the lock come; `false` is an error.
  unfoldable pub status_screen_start :
      Bool
      → Bool
      → Bool
      → ℕ
      → GnssSnapshot
      → GnssSnapshot
      → GnssSnapshot
      → S
      → App
      → App × Drawn × Bool
  unfolding refresh_cb
  status_screen_start port disp locks now gt g gl store a =
      if not port || not disp || not locks
      then (a, nothing_drawn, false)
      else let built = record a {
        screen = record {
          has_work = true;
          has_map = true;
          has_settings = true;
          active = work_view;
          mtick = a.screen.mtick;
        };
        form = settings_view_refresh nvs store a.form;
      } in
        let (b, drawn) = refresh_cb fpu now gt g gl built in (b, drawn, true)
