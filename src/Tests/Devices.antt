-- ===== src/Tests/Devices.antt =====
-- main/backlight.c and main/touch.c on short runs.
use tab5_client.Prelude.{
  ℕ, zero, suc, ◌≡◌, refl, ◌⊎◌, inr, true, false, Option, none, some, List, [], ◌∷◌, arith, Bytes,
}
use tab5_client.Prelude.Int.{pos, ◌-ℤ◌}
use tab5_client.Display.{display_backlight}
use tab5_client.Backlight.{
  Backlight, Inputs, bl_floor, goal, apply, tick, adapt, blank, brownout, hold_floor, climb, wake,
}
use tab5_client.Backlight.Safety.{IsSafe, tick-IsSafe, tick-stale}
use tab5_client.Backlight.Climb.{AllSteady, ticks, ticks-goal}
use tab5_client.Touch.{Touch, poll, read_point0, popcount}
use tab5_client.Touch.Debounce.{Tracks, polls, samples, polls-Tracks}

abbrev lit : Backlight
lit = record {
  cur = pos 70;
  ceiling = pos 100;
  healthy = 40;
  was_streaming = true;
  manual = false;
  asleep = false;
  presleep = pos 0;
  duty = 2866;
}

lit-IsSafe : IsSafe lit
unfolding display_backlight
lit-IsSafe = ground arith

abbrev low : Backlight
low = record lit { cur = pos 20; healthy = 0; duty = 819 }

low-IsSafe : IsSafe low
unfolding display_backlight
low-IsSafe = ground arith

abbrev dropped : Inputs
dropped = record { now = 200_000_000; alive = false; touch = true; last_activity_us = 100_000_000 }

dropped_run : (tick lit dropped).ceiling ≡ pos 40
unfolding tick adapt blank brownout hold_floor climb wake apply ◌-ℤ◌
dropped_run = refl

tick-IsSafe_example : IsSafe (tick lit dropped)
tick-IsSafe_example = tick-IsSafe dropped lit-IsSafe (λ _. refl)

tick-stale_example :
    let r = tick lit dropped in
    ((r.cur ≡ pos 0) ⊎ (r.cur ≡ bl_floor)) × (r.duty ≡ display_backlight r.cur)
tick-stale_example = tick-stale dropped lit-IsSafe (λ _. refl) refl

-- A second with a live stream, 100 seconds after the panel was touched.
abbrev second : Inputs
second = record { now = 900_000_000; alive = true; touch = true; last_activity_us = 800_000_000 }

abbrev seconds : ℕ → List Inputs
seconds zero = []
seconds (suc n) = second ∷ seconds n

seconds-AllSteady : (n : ℕ) → AllSteady (seconds n)
seconds-AllSteady zero = tt
seconds-AllSteady (suc n) =
    (record { alive = refl; in_use = inr (omega arith) }, seconds-AllSteady n)

ticks-goal_example :
    ((ticks (seconds 21) low).cur ≡ goal low) × ((ticks (seconds 21) low).ceiling ≡ low.ceiling)
ticks-goal_example =
    ticks-goal (seconds 21) low (seconds-AllSteady 21) low-IsSafe refl refl (omega arith)
      (omega arith)

abbrev idle : Touch
idle = record { present = true; last_us = 0; x = 0; y = 0; pressed = false; hist = 0 }

idle-Tracks : Tracks idle []
idle-Tracks = record { hist_is = refl; pressed_is = refl }

-- A report with a finger at (257, 2), and one without.
abbrev touch_down : Bytes
touch_down = 0 ∷ 0 ∷ 0 ∷ 0 ∷ 0x81 ∷ 1 ∷ 0 ∷ 2 ∷ []

abbrev script : List (Option Bytes × ℕ)
script = (some touch_down, 10) ∷ (none, 20) ∷ (some touch_down, 30) ∷ []

script_run : ((polls idle script).pressed ≡ true) × ((polls idle script).x ≡ 257)
unfolding polls poll read_point0 popcount
script_run = (refl, refl)

polls-Tracks_example : Tracks (polls idle script) (samples script [])
polls-Tracks_example = polls-Tracks script idle-Tracks
