-- ===== src/Screen/Shown.antt =====
-- main/status_screen.c: what is shown, and how often the map is drawn.
use tab5_client.Touch.{Touch, touch_get_point}
use tab5_client.Screen.Drawing.{delta_colour, draw_work, refresh_cb, status_strip}
use tab5_client.Prelude.Int.{leb_ℤ, negsuc, pos, ℤ}
use tab5_client.Leveler.{Leveler, leveler_record_tick}
use tab5_client.Leveler.Status.{LevelerStatus}
use tab5_client.Gnss.{GnssSnapshot}
use tab5_client.Float.{Fpu}
use tab5_client.Prelude.{
  ℕ, ◌+◌, ◌-◌, ◌*◌, ◌<◌, min, ◌≡◌, refl, ◌≢◌, ◌⊎◌, inl, inr, true, false, ◌&&◌, none, some, List,
  [], ◌∷◌, arith, leb, if◌then◌else◌, Bool-cases, if-both, length, Bytes, codes,
}
use tab5_client.Screen.{
  f64_100, clamp_bar, c_track, App, map_drawn, Drawn, tab5_lcd_h_res, Work, nothing_drawn, map_view,
  touch_read_cb, is_fresh, clamp_to, tab5_lcd_v_res, is_map_view, work_drawn, c_bad,
}

-- A point that the touch controller reports stays where it is if it is on the panel, and moves to
-- the nearest edge otherwise.
abbrev AtEdge : ℕ → ℕ → ℤ → Type 0
AtEdge res x z = z ≡ pos (min x (res - 1))

clamp_to-AtEdge : (res x : ℕ) → 0 < res → AtEdge res x (clamp_to res (pos x))
clamp_to-AtEdge res x h = ground arith

-- The screen gets a point exactly while the panel is touched, and each coordinate is the touch's,
-- moved to the panel's edge if it is beyond it.
pub touch_read_cb-min :
    (t : Touch)
    → touch_read_cb t ≡ (
        if t.pressed
        then some (pos (min t.x (tab5_lcd_h_res - 1)), pos (min t.y (tab5_lcd_v_res - 1)))
        else none)
unfolding touch_read_cb touch_get_point
touch_read_cb-min t =
    let ex = clamp_to-AtEdge tab5_lcd_h_res t.x (omega arith) in
    let ey = clamp_to-AtEdge tab5_lcd_v_res t.y (omega arith) in
    elim (Bool-cases t.pressed) [ inl p ↦ rw (p, ex, ey) refl | inr p ↦ rw p refl ]

clamp_bar-within :
    (v : ℤ) → (leb_ℤ (negsuc 29) (clamp_bar v) ≡ true) × (leb_ℤ (clamp_bar v) (pos 30) ≡ true)
clamp_bar-within (pos n) = ground arith
clamp_bar-within (negsuc n) = ground arith

-- One refresh: the clock, and the snapshots of the recorder, the screen and the leveler's status.
pub record Round : Type 0 where
  pub now : ℕ
  pub recorded : GnssSnapshot
  pub seen : GnssSnapshot
  pub levelled : GnssSnapshot

abbrev one_if_map : Drawn → ℕ
one_if_map nothing_drawn = 0
one_if_map map_drawn = 1
one_if_map (work_drawn w) = 0

module _ (fpu : Fpu) where
  -- A run of refreshes, with how often the map is drawn.
  unfoldable pub refreshes : List Round → App → App × ℕ
  refreshes [] a = (a, 0)
  refreshes (r ∷ rs) a =
      let (b, drawn) = refresh_cb fpu r.now r.recorded r.seen r.levelled a in
      let (c, k) = refreshes rs b in (c, one_if_map drawn + k)

  -- The recorder alone.
  abbrev pub ticks : List Round → Leveler → Leveler
  ticks [] l = l
  ticks (r ∷ rs) l = ticks rs (leveler_record_tick fpu l r.recorded)

  -- While the map is shown it is drawn at every fourth refresh, counted on from the less than 4
  -- ticks that there were, and the leveler gets exactly the recorder's ticks, one at each refresh.
  pub refreshes-map :
      (rs : List Round) (a : App)
      → a.screen.has_map ≡ true
      → a.screen.active ≡ map_view
      → a.screen.mtick < 4
      → let (b, k) = refreshes rs a in
        (k * 4 + b.screen.mtick ≡ a.screen.mtick + length rs)
        × (b.screen.mtick < 4)
        × (b.leveler ≡ ticks rs a.leveler)
  unfolding refreshes refresh_cb
  refreshes-map [] a m v h = (omega arith, h, refl)
  refreshes-map (r ∷ rs) a m v h =
      let l = leveler_record_tick fpu a.leveler r.recorded in
      let s = a.screen in
      let shown : s.has_map && is_map_view s.active ≡ true = rw (m, v) refl in
      elim (Bool-cases (leb 4 (s.mtick + 1))) [
        | inl t ↦
            let a' = record a { leveler = l; screen = record s { mtick = 0 } } in
            let (p, q, e) = refreshes-map rs a' m v (omega arith) in
            rw (shown, t) (ground (arith, p, t), q, e)
        | inr t ↦
            let a' = record a { leveler = l; screen = record s { mtick = s.mtick + 1 } } in
            let (p, q, e) = refreshes-map rs a' m v (ground (arith, t)) in
            rw (shown, t) (ground (arith, p), q, e)
      ]

  -- The strip says that there is no stream, or the stream is fresh.
  abbrev Stripped : ℕ → GnssSnapshot → Work → Type 0
  Stripped now g w =
      ((is_fresh now g.last_block_us ≡ false)
        × (w.status_text ≡ codes "no SBF")
        × (w.status_colour ≡ c_bad))
      ⊎ ((is_fresh now g.last_block_us ≡ true) × (w.status_colour ≢ c_bad))

  -- The bar follows the headline: empty without a deviation, else in the headline's colour.
  abbrev Barred : LevelerStatus → Work → Type 0
  Barred lv w =
      ((lv.have_delta ≡ false) × (w.bar_value ≡ pos 0) × (w.bar_colour ≡ c_track))
      ⊎ ((lv.have_delta ≡ true)
          × (w.bar_colour ≡ w.cutfill_colour)
          × (w.bar_colour ≡ delta_colour fpu lv.state)
          × (leb_ℤ (negsuc 29) w.bar_value ≡ true)
          × (leb_ℤ w.bar_value (pos 30) ≡ true))

  strip_colour :
      (now : ℕ) (g : GnssSnapshot)
      → is_fresh now g.last_block_us ≡ true
      → (status_strip fpu now g).1 ≢ c_bad
  unfolding status_strip
  strip_colour now g f = rw f (
      if-both (λ (p : Bytes × ℕ). p.1 ≢ c_bad) g.pvt_valid
        (if-both (λ (c : ℕ). c ≢ c_bad) (leb 3 g.pvt.mode_type) (λ e. omega (arith, e))
          (λ e. omega (arith, e)))
        (λ e. omega (arith, e)))

  strip_lem :
      (now : ℕ) (g : GnssSnapshot) (lv : LevelerStatus) → Stripped now g (draw_work fpu now g lv)
  unfolding draw_work status_strip
  strip_lem now g lv = elim (Bool-cases (is_fresh now g.last_block_us)) [
    | inl f ↦ inr (f, strip_colour now g f)
    | inr f ↦ inl (f, rw f refl, rw f refl)
  ]

  -- The work screen says that there is no stream exactly if the last block is 3 seconds old or
  -- there was none, and shows no bad colour else; the bar is empty without a deviation, and with
  -- one it has the headline's colour and is between -30 and 30.
  pub draw_work-Barred :
      (now : ℕ) (g : GnssSnapshot) (lv : LevelerStatus)
      → Stripped now g (draw_work fpu now g lv) × Barred lv (draw_work fpu now g lv)
  unfolding draw_work
  draw_work-Barred now g lv =
      let v = fpu.f64_lround (fpu.f64_mul lv.delta_m f64_100) in
      let (low, high) = clamp_bar-within v in
      (
        strip_lem now g lv,
        elim (Bool-cases lv.have_delta) [
          | inl d ↦ inr (d, rw d refl, rw d refl, rw d low, rw d high)
          | inr d ↦ inl (d, rw d refl, rw d refl)
        ],
      )
