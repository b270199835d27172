-- ===== src/Display.antt =====
-- `display_backlight` of main/display.c: the duty that the LEDC channel is set to.
use tab5_client.Prelude.{ℕ, ◌*◌, ◌/◌, if◌then◌else◌}
use tab5_client.Prelude.Int.{ℤ, pos, pos_part, ltb_ℤ}

abbrev pub bl_duty_max : ℕ
bl_duty_max = 4095

-- The clamp to 0..100 that `display_backlight` and `apply` of main/backlight.c begin with.
abbrev pub clamp_percent : ℤ → ℤ
clamp_percent pct =
    if ltb_ℤ pct (pos 0) then pos 0 else if ltb_ℤ (pos 100) pct then pos 100 else pct

unfoldable pub display_backlight : ℤ → ℕ
display_backlight percent = bl_duty_max * pos_part (clamp_percent percent) / 100
