-- ===== src/Backlight.antt =====
-- main/backlight.c: the adaptive backlight. A brightness of -1 means that none was applied yet.
pub mod Safety
pub mod Climb
use tab5_client.Prelude.{
  ℕ, ◌+◌, ◌*◌, ◌%◌, Bool, true, false, not, ◌&&◌, ltb, leb, ◌==◌, if◌then◌else◌,
}
use tab5_client.Prelude.Int.{ℤ, pos, negsuc, ltb_ℤ, leb_ℤ, ◌+ℤ◌, ◌-ℤ◌}
use tab5_client.Display.{clamp_percent, display_backlight}

abbrev pub bl_floor : ℤ
bl_floor = pos 20

abbrev pub bl_target : ℤ
bl_target = pos 80

abbrev pub bl_step : ℤ
bl_step = pos 10

abbrev bl_warmup_s : ℕ
bl_warmup_s = 5

abbrev bl_climb_every : ℕ
bl_climb_every = 3

abbrev pub bl_fresh_us : ℕ
bl_fresh_us = 3_000_000

abbrev bl_idle_off_s : ℕ
bl_idle_off_s = 180

-- The file's statics, and the duty that the panel's LED channel was last set to.
pub record Backlight : Type 0 where
  pub cur : ℤ
  pub ceiling : ℤ
  pub healthy : ℕ
  pub was_streaming : Bool
  pub manual : Bool
  pub asleep : Bool
  pub presleep : ℤ
  pub duty : ℕ

-- What one tick reads: `esp_timer_get_time`, `gnss_state_fresh`, `touch_present` and
-- `touch_last_activity_us`.
pub record Inputs : Type 0 where
  pub now : ℕ
  pub alive : Bool
  pub touch : Bool
  pub last_activity_us : ℕ

unfoldable pub boot : Backlight
boot = record {
  cur = pos 0;
  ceiling = pos 100;
  healthy = 0;
  was_streaming = false;
  manual = false;
  asleep = false;
  presleep = pos 0;
  duty = 0;
}

abbrev pub eq_ℤ : ℤ → ℤ → Bool
eq_ℤ a b = leb_ℤ a b && leb_ℤ b a

unfoldable pub apply : Backlight → ℤ → Backlight
unfolding display_backlight
apply s percent =
    let pct = clamp_percent percent in
    if eq_ℤ pct s.cur then s else record s { cur = pct; duty = display_backlight pct }

-- `now - last >= 180 s` in signed arithmetic.
abbrev pub is_idle : Inputs → Bool
is_idle i = leb (i.last_activity_us + bl_idle_off_s * 1_000_000) i.now

unfoldable pub blank : Backlight → Bool → Backlight
unfolding display_backlight
blank s alive = if s.asleep then record s { was_streaming = alive } else record s {
  asleep = true;
  presleep = if ltb_ℤ (pos 0) s.cur then s.cur else bl_floor;
  duty = display_backlight (pos 0);
  cur = pos 0;
  was_streaming = alive;
}

unfoldable pub wake : Backlight → Backlight
unfolding apply
wake s = if s.asleep then apply (record s { asleep = false; cur = negsuc 0 }) s.presleep else s

abbrev max_ℤ : ℤ → ℤ → ℤ
max_ℤ a b = if ltb_ℤ a b then b else a

abbrev pub min_ℤ : ℤ → ℤ → ℤ
min_ℤ a b = if ltb_ℤ a b then a else b

unfoldable pub brownout : Backlight → Backlight
unfolding apply ◌-ℤ◌
brownout s =
    let newceil = max_ℤ (s.cur -ℤ pos 30) bl_floor in
    let capped = record s { ceiling = min_ℤ newceil s.ceiling } in
    record (apply capped bl_floor) { healthy = 0; was_streaming = false }

unfoldable pub hold_floor : Backlight → Backlight
unfolding apply
hold_floor s = record (apply s bl_floor) { healthy = 0 }

abbrev pub goal : Backlight → ℤ
goal s = min_ℤ bl_target s.ceiling

unfoldable pub climb : Backlight → Backlight
unfolding apply ◌+ℤ◌
climb s =
    let healthy = if ltb s.healthy 100_000 then s.healthy + 1 else s.healthy in
    let r = record s { was_streaming = true; healthy = healthy } in
    if leb bl_warmup_s healthy && healthy % bl_climb_every == 0 && ltb_ℤ s.cur (goal s)
    then apply r (min_ℤ (goal s) (s.cur +ℤ bl_step))
    else r

unfoldable pub adapt : Backlight → Bool → Backlight
adapt s alive =
    if s.was_streaming && not alive then brownout s else if not alive then hold_floor s else climb s

unfoldable pub tick : Backlight → Inputs → Backlight
tick s i =
    if s.manual
    then s
    else if i.touch && is_idle i
    then blank s i.alive
    else if i.touch
    then adapt (wake s) i.alive
    else adapt s i.alive

-- With the timer running; if it does not start, no tick follows.
unfoldable pub backlight_auto_start : Backlight → Backlight
unfolding apply
backlight_auto_start s = apply (record s { cur = negsuc 0 }) bl_floor

unfoldable pub backlight_manual : Backlight → ℤ → Backlight
unfolding apply
backlight_manual s percent = apply (record s { manual = true }) percent
