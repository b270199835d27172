-- ===== src/Backlight/Climb.antt =====
-- How the backlight of main/backlight.c reaches its goal on a steady supply.
use tab5_client.Prelude.{
  ℕ, suc, ◌+◌, ◌-◌, ◌*◌, ◌/◌, ◌≤◌, ◌<◌, ◌≡◌, refl, ap, ◌∙◌, ◌⊎◌, inl, inr, true, false, arith, List,
  [], ◌∷◌, length, Bool-cases,
}
use tab5_client.Prelude.Int.{ℤ, pos, ◌≤ℤ◌}
use tab5_client.Backlight.{
  bl_target, min_ℤ, Backlight, Inputs, goal, climb, adapt, tick, wake, is_idle,
}
use tab5_client.Backlight.Safety.{climb-ceiling, IsSafe, climb-IsSafe}

-- What a tick reads while the stream is alive and the panel is not left alone: there is no touch
-- controller, or it was touched less than 180 seconds ago.
pub record IsSteady (i : Inputs) : Type 0 where
  pub alive : i.alive ≡ true
  pub in_use : (i.touch ≡ false) ⊎ (i.now < i.last_activity_us + 180_000_000)

abbrev pub AllSteady : List Inputs → Type 0
AllSteady [] = Unit {0}
AllSteady (i ∷ is) = IsSteady i × AllSteady is

-- A tick for each of the inputs, the last of the list first.
abbrev pub ticks : List Inputs → Backlight → Backlight
ticks [] s = s
ticks (i ∷ is) s = tick (ticks is s) i

-- The brightness that `n` healthy seconds have earned.
abbrev earned : ℕ → ℤ
earned n = pos (20 + 10 * (n / 3 - 1))

record Climbs (s₀ : Backlight) (n : ℕ) (s : Backlight) : Type 0 where
  safe : IsSafe s
  awake : s.asleep ≡ false
  ceiling_kept : s.ceiling ≡ s₀.ceiling
  counted : s.healthy ≡ n
  reached : (goal s ≤ℤ s.cur) ⊎ (earned n ≤ℤ s.cur)

climb-awake : (s : Backlight) → (climb s).asleep ≡ s.asleep
unfolding climb
climb-awake s = ground arith

climb-healthy : (s : Backlight) → s.healthy < 100_000 → (climb s).healthy ≡ s.healthy + 1
unfolding climb
climb-healthy s h = ground arith

climb-reached :
    {s : Backlight} (n : ℕ)
    → IsSafe s
    → s.asleep ≡ false
    → s.healthy ≡ n
    → n < 100_000
    → (goal s ≤ℤ s.cur) ⊎ (earned n ≤ℤ s.cur)
    → (goal (climb s) ≤ℤ (climb s).cur) ⊎ (earned (n + 1) ≤ℤ (climb s).cur)
unfolding climb
climb-reached {s} n v a c h r = ground arith

adapt-alive : (s : Backlight) → adapt s true ≡ climb s
unfolding adapt
adapt-alive s = elim (Bool-cases s.was_streaming) [ inl w ↦ simp w | inr w ↦ simp w ]

wake-awake : (s : Backlight) → s.asleep ≡ false → wake s ≡ s
unfolding wake
wake-awake s a = simp a

tick-steady :
    (s : Backlight) (i : Inputs)
    → IsSteady i
    → s.manual ≡ false
    → s.asleep ≡ false
    → tick s i ≡ climb s
unfolding tick
tick-steady s i v m a =
    let alive = adapt-alive s in
    let awake = wake-awake s a in
    elim (Bool-cases i.touch) [
      | inr t ↦ simp (m, t, v.alive, alive)
      | inl t ↦
          let idle : is_idle i ≡ false = ground (arith, t, v.in_use) in
          simp (m, t, idle, awake, v.alive, alive)
    ]

at_goal :
    (s : Backlight) (n : ℕ)
    → 21 ≤ n
    → IsSafe s
    → s.asleep ≡ false
    → (goal s ≤ℤ s.cur) ⊎ (earned n ≤ℤ s.cur)
    → s.cur ≡ goal s
at_goal s n l v a r = ground arith

ticks-Climbs :
    (is : List Inputs) (s : Backlight)
    → AllSteady is
    → IsSafe s
    → s.asleep ≡ false
    → s.healthy ≡ 0
    → length is ≤ 100_000
    → Climbs s (length is) (ticks is s)
ticks-Climbs [] s st v a h l = record {
  safe = v;
  awake = a;
  ceiling_kept = refl;
  counted = h;
  reached = inr (ground arith);
}
ticks-Climbs (i ∷ is) s (st, sts) v a h l =
    let t = ticks is s in
    let n = length is in
    let c = ticks-Climbs is s sts v a h (omega (arith, l)) in
    let next : n + 1 ≡ suc n = omega arith in
    rw (tick-steady t i st c.safe.auto c.awake) (record {
      safe = climb-IsSafe c.awake c.safe;
      awake = climb-awake t ∙ c.awake;
      ceiling_kept = climb-ceiling t ∙ c.ceiling_kept;
      counted = omega (arith, climb-healthy t, c.counted, l);
      reached = rw next at (climb-reached n c.safe c.awake c.counted (omega (arith, l)) c.reached);
    })

-- On a supply that holds, without a touch controller or with the panel touched less than 180
-- seconds before each tick, the brightness of a panel that is lit reaches the smaller of 80 and
-- the learned ceiling within 21 healthy seconds after a drop and stays there, up to 100,000
-- seconds; the ceiling is not touched.
pub ticks-goal :
    (is : List Inputs) (s : Backlight)
    → AllSteady is
    → IsSafe s
    → s.asleep ≡ false
    → s.healthy ≡ 0
    → 21 ≤ length is
    → length is ≤ 100_000
    → ((ticks is s).cur ≡ goal s) × ((ticks is s).ceiling ≡ s.ceiling)
ticks-goal is s st v a h l m =
    let c = ticks-Climbs is s st v a h m in
    (
      at_goal (ticks is s) (length is) l c.safe c.awake c.reached
          ∙ ap (min_ℤ bl_target) c.ceiling_kept,
      c.ceiling_kept,
    )
