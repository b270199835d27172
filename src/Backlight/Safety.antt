-- ===== src/Backlight/Safety.antt =====
-- What the adaptive controller of main/backlight.c keeps to, tick by tick.
use tab5_client.Prelude.{
  ◌≡◌, refl, ◌⊎◌, inl, inr, Bool, true, false, ◌&&◌, arith, if◌then◌else◌, Bool-cases,
}
use tab5_client.Prelude.Int.{ℤ, pos, ◌-ℤ◌, ◌≤ℤ◌}
use tab5_client.Display.{display_backlight}
use tab5_client.Backlight.{
  Backlight, Inputs, bl_floor, bl_target, boot, is_idle, blank, wake, brownout, hold_floor, climb,
  adapt, tick, backlight_auto_start,
}

-- The brightness that a touch brings back, or the current one.
abbrev pub level : Backlight → ℤ
level s = if s.asleep then s.presleep else s.cur

pub record IsSafe (s : Backlight) : Type 0 where
  pub auto : s.manual ≡ false
  pub ceiling_low : bl_floor ≤ℤ s.ceiling
  pub ceiling_high : s.ceiling ≤ℤ pos 100
  pub low : bl_floor ≤ℤ level s
  pub high : level s ≤ℤ bl_target
  pub under : level s ≤ℤ s.ceiling
  pub dark : s.asleep ≡ true → s.cur ≡ pos 0
  pub lit : s.duty ≡ display_backlight s.cur

backlight_auto_start-IsSafe : IsSafe (backlight_auto_start boot)
unfolding backlight_auto_start boot
backlight_auto_start-IsSafe = ground arith

blank-IsSafe : {s : Backlight} (alive : Bool) → IsSafe s → IsSafe (blank s alive)
unfolding blank
blank-IsSafe {s} alive v = ground arith

wake-IsSafe : {s : Backlight} → IsSafe s → IsSafe (wake s) × ((wake s).asleep ≡ false)
unfolding wake
wake-IsSafe {s} v = ground arith

hold_floor-IsSafe : {s : Backlight} → s.asleep ≡ false → IsSafe s → IsSafe (hold_floor s)
unfolding hold_floor
hold_floor-IsSafe {s} a v = ground arith

brownout-IsSafe : {s : Backlight} → s.asleep ≡ false → IsSafe s → IsSafe (brownout s)
unfolding brownout
brownout-IsSafe {s} a v = ground arith

pub climb-IsSafe : {s : Backlight} → s.asleep ≡ false → IsSafe s → IsSafe (climb s)
unfolding climb
climb-IsSafe {s} a v = ground arith

adapt-IsSafe : {s : Backlight} (alive : Bool) → s.asleep ≡ false → IsSafe s → IsSafe (adapt s alive)
unfolding adapt
adapt-IsSafe {s} true a v = ground (arith, climb-IsSafe a v)
adapt-IsSafe {s} false a v = ground (arith, brownout-IsSafe a v, hold_floor-IsSafe a v)

-- A tick on which nobody has touched the panel for long, one with a recent touch, and one
-- without a touch controller.
data PathOf (s : Backlight) (i : Inputs) : Type 0 where
  is_blank : tick s i ≡ blank s i.alive → PathOf s i
  is_woken : tick s i ≡ adapt (wake s) i.alive → PathOf s i
  is_plain : i.touch ≡ false → tick s i ≡ adapt s i.alive → PathOf s i

tick-cases : (s : Backlight) (i : Inputs) → s.manual ≡ false → PathOf s i
unfolding tick
tick-cases s i m = elim (Bool-cases i.touch) [
  | inl t ↦ elim (Bool-cases (is_idle i)) [
    | inl d ↦ is_blank (rw (m, t, d))
    | inr d ↦ is_woken (rw (m, t, d))
  ]
  | inr t ↦ is_plain t (rw (m, t))
]

-- The controller never leaves its limits: on any input, an automatic tick keeps the learned
-- ceiling in 20..100, the brightness (or the one that a touch will bring back) in 20..80 and not
-- above the ceiling, a blanked panel at 0, and the LED duty at the value of the recorded
-- brightness. Without a touch controller the panel must not be blanked to begin with.
pub tick-IsSafe :
    {s : Backlight} (i : Inputs)
    → IsSafe s
    → (i.touch ≡ false → s.asleep ≡ false)
    → IsSafe (tick s i)
tick-IsSafe {s} i v present = elim (tick-cases s i v.auto) [
  | is_blank e ↦ rw e (blank-IsSafe i.alive v)
  | is_woken e ↦ rw e (adapt-IsSafe i.alive (wake-IsSafe v).1 (wake-IsSafe v).0)
  | is_plain t e ↦ rw e (adapt-IsSafe i.alive (present t) v)
]

hold_floor-cur : (s : Backlight) → (hold_floor s).cur ≡ bl_floor
unfolding hold_floor
hold_floor-cur s = ground arith

brownout-cur : (s : Backlight) → (brownout s).cur ≡ bl_floor
unfolding brownout
brownout-cur s = ground arith

adapt-stale : (s : Backlight) → (adapt s false).cur ≡ bl_floor
unfolding adapt
adapt-stale s = ground (arith, brownout-cur s, hold_floor-cur s)

-- While the receiver's stream is stale, every automatic tick leaves the panel at the floor or off,
-- and the LED duty with it, so that the receiver has the supply's headroom.
pub tick-stale :
    {s : Backlight} (i : Inputs)
    → IsSafe s
    → (i.touch ≡ false → s.asleep ≡ false)
    → i.alive ≡ false
    → let r = tick s i in
      ((r.cur ≡ pos 0) ⊎ (r.cur ≡ bl_floor)) × (r.duty ≡ display_backlight r.cur)
unfolding blank
tick-stale {s} i v present a = (level_of (tick-cases s i v.auto), (tick-IsSafe i v present).lit)
  where
    level_of : PathOf s i → ((tick s i).cur ≡ pos 0) ⊎ ((tick s i).cur ≡ bl_floor)
    level_of (is_blank e) = inl (rw e (ground arith))
    level_of (is_woken e) = inr (rw (e, a) (adapt-stale (wake s)))
    level_of (is_plain t e) = inr (rw (e, a) (adapt-stale s))

blank-ceiling : (s : Backlight) (alive : Bool) → (blank s alive).ceiling ≡ s.ceiling
unfolding blank
blank-ceiling s alive = ground arith

wake-ceiling : (s : Backlight) → (wake s).ceiling ≡ s.ceiling
unfolding wake
wake-ceiling s = ground arith

pub climb-ceiling : (s : Backlight) → (climb s).ceiling ≡ s.ceiling
unfolding climb
climb-ceiling s = ground arith

hold_floor-ceiling : (s : Backlight) → (hold_floor s).ceiling ≡ s.ceiling
unfolding hold_floor
hold_floor-ceiling s = ground arith

brownout-ceiling : (s : Backlight) → (brownout s).ceiling ≤ℤ s.ceiling
unfolding brownout
brownout-ceiling s = ground arith

adapt-ceiling : (s : Backlight) (alive : Bool) → (adapt s alive).ceiling ≤ℤ s.ceiling
unfolding adapt
adapt-ceiling s alive = ground (arith, climb-ceiling s, hold_floor-ceiling s, brownout-ceiling s)

-- The learned ceiling never rises, whatever a tick reads.
pub tick-ceiling : (s : Backlight) (i : Inputs) → (tick s i).ceiling ≤ℤ s.ceiling
unfolding tick
tick-ceiling s i = ground (
  arith,
  blank-ceiling s i.alive,
  adapt-ceiling s i.alive,
  adapt-ceiling (wake s) i.alive,
  wake-ceiling s,
)

tick-is_brownout :
    (s : Backlight) (i : Inputs)
    → s.manual ≡ false
    → s.asleep ≡ false
    → s.was_streaming ≡ true
    → i.alive ≡ false
    → (i.touch && is_idle i) ≡ false
    → tick s i ≡ brownout s
unfolding tick adapt wake
tick-is_brownout s i m a w d n = elim (Bool-cases i.touch) [
  | inl t ↦ let idle : is_idle i ≡ false = rw t at n in simp (m, t, idle, a, w, d)
  | inr t ↦ simp (m, t, a, w, d)
]

brownout-learns :
    (s : Backlight) → ((brownout s).ceiling ≤ℤ s.cur -ℤ pos 30) ⊎ ((brownout s).ceiling ≤ℤ bl_floor)
unfolding brownout
brownout-learns s = ground arith

brownout-restarts :
    (s : Backlight) → ((brownout s).was_streaming ≡ false) × ((brownout s).healthy ≡ 0)
unfolding brownout
brownout-restarts s = (refl, refl)

-- A stream that drops at an unblanked brightness is learned from: the ceiling is at most 30 below
-- that brightness, or 20, and the panel is back at the floor.
pub tick-brownout :
    {s : Backlight} (i : Inputs)
    → IsSafe s
    → s.asleep ≡ false
    → s.was_streaming ≡ true
    → i.alive ≡ false
    → (i.touch && is_idle i) ≡ false
    → let r = tick s i in
      (r.cur ≡ bl_floor)
      × ((r.ceiling ≤ℤ s.cur -ℤ pos 30) ⊎ (r.ceiling ≤ℤ bl_floor))
      × (r.was_streaming ≡ false)
      × (r.healthy ≡ 0)
tick-brownout {s} i v a w d n =
    let (was, healthy) = brownout-restarts s in
    rw (tick-is_brownout s i v.auto a w d n) (brownout-cur s, brownout-learns s, was, healthy)
