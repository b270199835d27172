-- ===== src/Screen.antt =====
-- main/status_screen.c: the work screen's texts, the touch input, the buttons and the change of
-- screens. What is drawn is a value. The clock, the snapshots of the position that the calls take,
-- and whether the display's lock is got are arguments.
pub mod Drawing
pub mod Runs
pub mod Shown
use tab5_client.Map.Dots.{on}
use tab5_client.Touch.{Touch, touch_get_point}
use tab5_client.Settings.{Form}
use tab5_client.Prelude.Int.{leb_ℤ, ltb_ℤ, negsuc, pos, ℤ, ◌-ℤ◌}
use tab5_client.Leveler.{
  Leveler, Mode, Rec, mode_balance, mode_flat, mode_none, rec_off, rec_perimeter, rec_survey,
}
use tab5_client.Float.{F64}
use tab5_client.Prelude.{
  ℕ, ◌-◌, ◌/◌, Bool, true, false, ◌&&◌, Option, none, some, ltb, ◌==◌, if◌then◌else◌, take, Bytes,
  codes,
}

abbrev pub tab5_lcd_h_res : ℕ
tab5_lcd_h_res = 720

abbrev pub tab5_lcd_v_res : ℕ
tab5_lcd_v_res = 1280

abbrev c_ok : ℕ
c_ok = 0x33DD66

abbrev c_warn : ℕ
c_warn = 0xFFCC33

abbrev pub c_bad : ℕ
c_bad = 0xFF5555

abbrev c_idle : ℕ
c_idle = 0x8899AA

abbrev c_cut : ℕ
c_cut = 0xFF7744

abbrev c_fill : ℕ
c_fill = 0x44AAFF

abbrev pub c_track : ℕ
c_track = 0x10233A

abbrev pub bar_cm_fs : ℕ
bar_cm_fs = 30

-- 100.0
abbrev f64_100 : F64
f64_100 = 0x4059000000000000

-- A coordinate within the panel.
abbrev pub clamp_to : ℕ → ℤ → ℤ
clamp_to res x = if ltb_ℤ x (pos 0) then pos 0 else if leb_ℤ (pos res) x then pos (res - 1) else x

-- The point of a touch, and none when released.
unfoldable pub touch_read_cb : Touch → Option (ℤ × ℤ)
unfolding touch_get_point
touch_read_cb t =
    let (x, y, pressed) = touch_get_point t in
    if pressed
    then some (clamp_to tab5_lcd_h_res (pos x), clamp_to tab5_lcd_v_res (pos y))
    else none

-- A screen of the panel.
pub data View : Type 0 where
  work_view map_view settings_view : View

-- The statics: which screens were built, which is active, and the map's ticks.
pub record Screen : Type 0 where
  pub has_work : Bool
  pub has_map : Bool
  pub has_settings : Bool
  pub active : View
  pub mtick : ℕ

abbrev pub screen_boot : Screen
screen_boot = record {
  has_work = false;
  has_map = false;
  has_settings = false;
  active = work_view;
  mtick = 0;
}

-- The screens with what they act on.
pub record App : Type 0 where
  pub screen : Screen
  pub leveler : Leveler
  pub form : Form

-- The widgets of the work screen.
pub record Work : Type 0 where
  pub status_text : Bytes
  pub status_colour : ℕ
  pub cutfill_text : Bytes
  pub cutfill_colour : ℕ
  pub bar_value : ℤ
  pub bar_colour : ℕ
  pub mode_text : Bytes
  pub perim_colour : ℕ
  pub field_colour : ℕ

-- What a call draws.
pub data Drawn : Type 0 where
  nothing_drawn : Drawn
  map_drawn : Drawn
  work_drawn : Work → Drawn

abbrev pub is_map_view : View → Bool
is_map_view work_view = false
is_map_view map_view = true
is_map_view settings_view = false

abbrev pub is_settings_view : View → Bool
is_settings_view work_view = false
is_settings_view map_view = false
is_settings_view settings_view = true

-- `age_ms`, -1 before the first block.
abbrev pub age_ms : ℕ → ℕ → ℤ
age_ms now last =
    if last == 0
    then negsuc 0
    else if ltb now last
    then pos 0 -ℤ pos ((last - now) / 1000)
    else pos ((now - last) / 1000)

abbrev pub is_fresh : ℕ → ℕ → Bool
is_fresh now last = leb_ℤ (pos 0) (age_ms now last) && ltb_ℤ (age_ms now last) (pos 3000)

-- A text in the buffer of 96.
abbrev in_buf : Bytes → Bytes
in_buf t = take 95 t

abbrev clamp_bar : ℤ → ℤ
clamp_bar v =
    let w = if ltb_ℤ (pos bar_cm_fs) v then pos bar_cm_fs else v in
    if ltb_ℤ w (negsuc 29) then negsuc 29 else w

abbrev mode_label : Mode → Bytes
mode_label mode_none = codes "no plane"
mode_label mode_balance = codes "balance"
mode_label mode_flat = codes "flat"

abbrev no_delta_text : Mode → Bytes
no_delta_text mode_none = codes "-- no plane"
no_delta_text mode_balance = codes "-- no fix"
no_delta_text mode_flat = codes "-- no fix"

-- The colour of a recording button, from whether it is on.
abbrev button_colour : Bool → ℕ
button_colour on = if on then c_ok else 0x18406A

abbrev is_survey : Rec → Bool
is_survey rec_off = false
is_survey rec_perimeter = false
is_survey rec_survey = true
