-- ===== src/Screen/Runs.antt =====
-- main/status_screen.c: what runs of buttons, refreshes and changes of screens keep to.
use tab5_client.Screen.Drawing.{
  with_computed, on_vol, load_computed, load_view, Button, clear_button, field_button, fit_button,
  flat_button, map_button, perim_button, press, refresh_cb, status_screen_show_map,
  status_screen_show_settings, stop_button,
}
use tab5_client.Screen.{App, Drawn, is_map_view, is_settings_view, nothing_drawn}
use tab5_client.Nvs.{Nvs}
use tab5_client.Leveler.Kept.{IsLeveler}
use tab5_client.Leveler.{
  Leveler, leveler_compute_volumes, leveler_record_tick, rec_off, rec_perimeter, rec_survey,
}
use tab5_client.Gnss.{GnssSnapshot}
use tab5_client.Float.{Fpu}
use tab5_client.Prelude.{
  ℕ, ◌+◌, ◌<◌, ◌≡◌, refl, inl, inr, Bool, true, false, not, ◌&&◌, ◌||◌, Option, none, some, arith,
  leb, Bool-cases, if-both,
}
use mathlib.Core.Path.{subst}
use tab5_client.Leveler.Invariant.{
  Reachable-IsLeveler, Reachable, step, gate, switch, flat, fit, clear, volumes,
}

-- All screens are built, the map's ticks are below 4, and the leveler's state comes from calls.
pub record IsApp (fpu : Fpu) (a : App) : Type 0 where
  pub work_built : a.screen.has_work ≡ true
  pub map_built : a.screen.has_map ≡ true
  pub settings_built : a.screen.has_settings ≡ true
  pub few_ticks : a.screen.mtick < 4
  pub reached : Reachable fpu a.leveler

-- The result of a call, if it comes back.
abbrev Keeps : Fpu → Option (App × Drawn) → Type 0
Keeps fpu none = Unit {0}
Keeps fpu (some (a, d)) = IsApp fpu a

module _ (fpu : Fpu) where
  with_leveler :
      (a : App) (l : Leveler) → IsApp fpu a → Reachable fpu l → IsApp fpu (record a { leveler = l })
  with_leveler a l v r = record {
    work_built = v.work_built;
    map_built = v.map_built;
    settings_built = v.settings_built;
    few_ticks = v.few_ticks;
    reached = r;
  }

  load_view-IsApp :
      (locks show : Bool) (a : App) (l : Leveler)
      → IsApp fpu a
      → Reachable fpu l
      → IsApp fpu (load_view fpu locks show a l).0
  load_view-IsApp true show a l v r = record {
    work_built = v.work_built;
    map_built = v.map_built;
    settings_built = v.settings_built;
    few_ticks = v.few_ticks;
    reached = r;
  }
  load_view-IsApp false show a l v r = with_leveler a l v r

  computed_lem :
      (fuel : ℕ) (locks : Bool) (a : App) (o : Option (Leveler × Bool))
      → IsApp fpu a
      → leveler_compute_volumes fpu fuel a.leveler ≡ o
      → Keeps fpu (load_computed fpu locks a o)
  computed_lem fuel locks a none v e = tt
  computed_lem fuel locks a (some (l, ok)) v e =
      load_view-IsApp locks true a l v (step v.reached (volumes fuel e))

  show_map-IsApp :
      (fuel : ℕ) (locks show : Bool) (a : App)
      → IsApp fpu a
      → Keeps fpu (status_screen_show_map fpu fuel locks show a)
  unfolding status_screen_show_map
  show_map-IsApp fuel locks true a v =
      if-both (Keeps fpu) (not a.screen.has_map || not a.screen.has_work) v
        (computed_lem fuel locks a (leveler_compute_volumes fpu fuel a.leveler) v refl)
  show_map-IsApp fuel locks false a v =
      if-both (Keeps fpu) (not a.screen.has_map || not a.screen.has_work) v
        (load_view-IsApp locks false a a.leveler v v.reached)

  with_computed-IsApp :
      (fuel : ℕ) (a : App) (o : Option (Leveler × Bool))
      → IsApp fpu a
      → leveler_compute_volumes fpu fuel a.leveler ≡ o
      → Keeps fpu (with_computed fpu a o)
  with_computed-IsApp fuel a none v e = tt
  with_computed-IsApp fuel a (some (l, ok)) v e =
      with_leveler a l v (step v.reached (volumes fuel e))

  on_vol-IsApp : (fuel : ℕ) (a : App) → IsApp fpu a → Keeps fpu (on_vol fpu fuel a)
  unfolding on_vol
  on_vol-IsApp fuel a v =
      with_computed-IsApp fuel a (leveler_compute_volumes fpu fuel a.leveler) v refl

  press-IsApp :
      (g : GnssSnapshot) (fuel : ℕ) (locks : Bool) (a : App) (b : Button fpu)
      → IsApp fpu a
      → Keeps fpu (press fpu g fuel locks a b)
  unfolding press
  press-IsApp g fuel locks a perim_button v =
      with_leveler a _ v (step v.reached (switch rec_perimeter))
  press-IsApp g fuel locks a field_button v =
      with_leveler a _ v (step v.reached (switch rec_survey))
  press-IsApp g fuel locks a stop_button v = with_leveler a _ v (step v.reached (switch rec_off))
  press-IsApp g fuel locks a flat_button v = with_leveler a _ v (step v.reached (flat g))
  press-IsApp g fuel locks a fit_button v = with_leveler a _ v (step v.reached fit)
  press-IsApp g fuel locks a clear_button v = with_leveler a _ v (step v.reached clear)
  press-IsApp g fuel locks a map_button v = show_map-IsApp fuel locks true a v

  refresh_cb-IsApp :
      (now : ℕ) (gt g gl : GnssSnapshot) (a : App)
      → IsApp fpu a
      → IsApp fpu (refresh_cb fpu now gt g gl a).0
  unfolding refresh_cb
  refresh_cb-IsApp now gt g gl a v =
      let l = leveler_record_tick fpu a.leveler gt in
      let ticked = step v.reached (gate gt) in
      elim (Bool-cases (a.screen.has_map && is_map_view a.screen.active)) [
        | inl m ↦ elim (Bool-cases (leb 4 (a.screen.mtick + 1))) [
          | inl t ↦
              rw (m, t)
                (record {
                  work_built = v.work_built;
                  map_built = v.map_built;
                  settings_built = v.settings_built;
                  few_ticks = omega arith;
                  reached = ticked;
                })
          | inr t ↦
              rw (m, t)
                (record {
                  work_built = v.work_built;
                  map_built = v.map_built;
                  settings_built = v.settings_built;
                  few_ticks = ground (arith, t);
                  reached = ticked;
                })
        ]
        | inr m ↦ elim (Bool-cases (a.screen.has_settings && is_settings_view a.screen.active)) [
          | inl t ↦ rw (m, t) (with_leveler a l v ticked)
          | inr t ↦ rw (m, t) (with_leveler a l v ticked)
        ]
      ]

-- What happens to the panel after its start.
module _ (fpu : Fpu) {S : Type 0} (nvs : Nvs S) where
  pub data Event : Type 0 where
    pressed : GnssSnapshot → ℕ → Bool → Button fpu → Event
    refreshed : ℕ → GnssSnapshot → GnssSnapshot → GnssSnapshot → Event
    map_asked : ℕ → Bool → Bool → Event
    volumes_asked : ℕ → Event
    settings_asked : Bool → S → Event

  abbrev handle : App → Event → Option (App × Drawn)
  handle a (pressed g fuel locks b) = press fpu g fuel locks a b
  handle a (refreshed now gt g gl) = some (refresh_cb fpu now gt g gl a)
  handle a (map_asked fuel locks show) = status_screen_show_map fpu fuel locks show a
  handle a (volumes_asked fuel) = on_vol fpu fuel a
  handle a (settings_asked locks s) =
      some (status_screen_show_settings nvs locks s a, nothing_drawn)

  show_settings-IsApp :
      (locks : Bool) (s : S) (a : App)
      → IsApp fpu a
      → IsApp fpu (status_screen_show_settings nvs locks s a)
  unfolding status_screen_show_settings
  show_settings-IsApp locks s a v =
      if-both (IsApp fpu) (not a.screen.has_settings || not locks) v (record {
        work_built = v.work_built;
        map_built = v.map_built;
        settings_built = v.settings_built;
        few_ticks = v.few_ticks;
        reached = v.reached;
      })

  handle-IsApp : (a : App) (e : Event) → IsApp fpu a → Keeps fpu (handle a e)
  handle-IsApp a (pressed g fuel locks b) v = press-IsApp fpu g fuel locks a b v
  handle-IsApp a (refreshed now gt g gl) v = refresh_cb-IsApp fpu now gt g gl a v
  handle-IsApp a (map_asked fuel locks show) v = show_map-IsApp fpu fuel locks show a v
  handle-IsApp a (volumes_asked fuel) v = on_vol-IsApp fpu fuel a v
  handle-IsApp a (settings_asked locks s) v = show_settings-IsApp locks s a v

  -- A run of events; `none` if a computation of volumes runs out of fuel.
  pub data Runs : App → App → Type 0 where
    none_yet : {a : App} → Runs a a
    then_event :
        {a b c : App} {d : Drawn} (e : Event) → Runs a b → handle b e ≡ some (c, d) → Runs a c

  pub kept :
      (o : Option (App × Drawn)) (c : App) (d : Drawn) → o ≡ some (c, d) → Keeps fpu o → IsApp fpu c
  kept o c d e k = subst (λ (p : Option (App × Drawn)). Keeps fpu p) e k

  -- Whatever buttons of the work screen and the map are touched, refreshes come and screens are
  -- asked for, in any order, from a state in which the screens are built and the leveler's state
  -- comes from calls of it, the leveler keeps to what holds after any of its calls, and the map is
  -- due in less than 4 refreshes.
  pub Runs-IsLeveler :
      {a b : App} → IsApp fpu a → Runs a b → IsLeveler b.leveler × (b.screen.mtick < 4)
  Runs-IsLeveler v r = let w = runs-IsApp v r in (Reachable-IsLeveler fpu w.reached, w.few_ticks)
    where
      runs-IsApp : {a b : App} → IsApp fpu a → Runs a b → IsApp fpu b
      runs-IsApp v none_yet = v
      runs-IsApp v (then_event {b = b} {c = c} {d = d} e r h) =
          kept (handle b e) c d h (handle-IsApp b e (runs-IsApp v r))
