-- ===== src/Leveler/Invariant.antt =====
-- What every call on main/leveler.c keeps to.
use tab5_client.Prelude.{ℕ, ◌≡◌, refl, Bool, true, Option, none, some, arith, if-both}
use tab5_client.Float.{Fpu}
use tab5_client.Gnss.{GnssSnapshot}
use tab5_client.Cutfill.{
  cutfill_plane_flat, cutfill_geo_init, cutfill_survey_add_en, cutfill_project,
}
use tab5_client.Fieldmap.{fieldmap_point_add, fieldmap_reset, fieldmap_init}
use tab5_client.Leveler.{
  Leveler, leveler_boot, Rec, Fix, leveler_init, leveler_survey_clear, leveler_record_set,
  current_fix, pin_origin, add_sample, survey_add, leveler_survey_add_current, leveler_fit_balance,
  set_flat, leveler_set_flat_here, record_fix, leveler_compute_volumes, leveler_record_tick,
  is_perimeter, is_off, far_enough,
}
use tab5_client.Leveler.Demo.{leveler_demo_field}
use tab5_client.Leveler.Planting.{leveler_demo_field-IsLeveler}
use tab5_client.Leveler.Kept.{
  IsLeveler, length-boundary_add, length-point_add, fit_balance-agrees, fit_balance-few,
}

-- A call, with the position that it reads.
pub data Step (fpu : Fpu) : Leveler → Leveler → Type 0 where
  clear : {l : Leveler} → Step fpu l (leveler_survey_clear l)
  fit : {l : Leveler} → Step fpu l (leveler_fit_balance fpu l).0
  add : {l : Leveler} (g : GnssSnapshot) → Step fpu l (leveler_survey_add_current fpu l g).0
  flat : {l : Leveler} (g : GnssSnapshot) → Step fpu l (leveler_set_flat_here fpu l g).0
  gate : {l : Leveler} (g : GnssSnapshot) → Step fpu l (leveler_record_tick fpu l g)
  volumes :
      {l r : Leveler} {ok : Bool} (fuel : ℕ)
      → leveler_compute_volumes fpu fuel l ≡ some (r, ok)
      → Step fpu l r
  demo : {l r : Leveler} (fuel : ℕ) → leveler_demo_field fpu fuel l ≡ some r → Step fpu l r
  switch : {l : Leveler} (mode : Rec) → Step fpu l (leveler_record_set l mode)

-- Runs of calls after `leveler_init`.
pub data Reachable (fpu : Fpu) : Leveler → Type 0 where
  start : (b p : Bool) → Reachable fpu (leveler_init b p leveler_boot)
  step : {l r : Leveler} → Reachable fpu l → Step fpu l r → Reachable fpu r

leveler_init-IsLeveler : (b p : Bool) → IsLeveler (leveler_init b p leveler_boot)
unfolding leveler_init fieldmap_init
leveler_init-IsLeveler b p = ground arith

leveler_survey_clear-IsLeveler : {l : Leveler} → IsLeveler l → IsLeveler (leveler_survey_clear l)
unfolding leveler_survey_clear fieldmap_reset
leveler_survey_clear-IsLeveler v = ground arith

leveler_record_set-IsLeveler :
    {l : Leveler} (mode : Rec) → IsLeveler l → IsLeveler (leveler_record_set l mode)
unfolding leveler_record_set
leveler_record_set-IsLeveler mode v = ground arith

module _ (fpu : Fpu) where
  pin_origin-IsLeveler :
      {l : Leveler} (f : Fix)
      → IsLeveler l
      → IsLeveler (pin_origin fpu l f) × ((pin_origin fpu l f).geo.is_set ≡ true)
  unfolding cutfill_geo_init
  pin_origin-IsLeveler {l} f v = ground arith

  add_sample-IsLeveler :
      {l : Leveler} (f : Fix) (as_boundary : Bool)
      → IsLeveler l
      → l.geo.is_set ≡ true
      → IsLeveler (add_sample fpu l f as_boundary)
  unfolding add_sample cutfill_survey_add_en
  add_sample-IsLeveler {l} f as_boundary v o =
      let (e, n) = cutfill_project fpu l.geo f.lat f.lon in
      let z = fpu.f64_sub f.h l.geo.h0 in
      let field = fieldmap_point_add l.field e n z in
      ground (arith, v, length-point_add l.field e n z, length-boundary_add field e n)

  leveler_fit_balance-IsLeveler :
      {l : Leveler} → IsLeveler l → IsLeveler (leveler_fit_balance fpu l).0
  unfolding leveler_fit_balance
  leveler_fit_balance-IsLeveler {l} v =
      ground
        (arith, v, fit_balance-agrees fpu l.survey l.plane, fit_balance-few fpu l.survey l.plane)

  leveler_survey_add_current-IsLeveler :
      {l : Leveler} (g : GnssSnapshot)
      → IsLeveler l
      → IsLeveler (leveler_survey_add_current fpu l g).0
  unfolding leveler_survey_add_current
  leveler_survey_add_current-IsLeveler {l} g v = by_fix (current_fix fpu g)
    where
      by_fix : (o : Option Fix) → IsLeveler (survey_add fpu l o).0
      by_fix none = v
      by_fix (some f) =
          let (w, o) = pin_origin-IsLeveler f v in add_sample-IsLeveler f (is_perimeter l.rec) w o

  leveler_set_flat_here-IsLeveler :
      {l : Leveler} (g : GnssSnapshot) → IsLeveler l → IsLeveler (leveler_set_flat_here fpu l g).0
  unfolding leveler_set_flat_here cutfill_plane_flat
  leveler_set_flat_here-IsLeveler {l} g v = by_fix (current_fix fpu g)
    where
      by_fix : (o : Option Fix) → IsLeveler (set_flat fpu l o).0
      by_fix none = v
      by_fix (some f) =
          let (w, o) = pin_origin-IsLeveler f v in
          record {
            counted = w.counted;
            boundary_fits = w.boundary_fits;
            points_fit = w.points_fit;
            sampled = w.sampled;
            gated = w.gated;
            planned = λ _. (o, refl);
            current = λ _. refl;
          }

  leveler_record_tick-IsLeveler :
      {l : Leveler} (g : GnssSnapshot) → IsLeveler l → IsLeveler (leveler_record_tick fpu l g)
  unfolding leveler_record_tick
  leveler_record_tick-IsLeveler {l} g v =
      if-both IsLeveler (is_off l.rec) v (by_fix (current_fix fpu g))
    where
      by_fix : (o : Option Fix) → IsLeveler (record_fix fpu l o)
      by_fix none = v
      by_fix (some f) =
          let (w, o) = pin_origin-IsLeveler f v in
          let pinned = pin_origin fpu l f in
          let (e, n) = cutfill_project fpu pinned.geo f.lat f.lon in
          if-both IsLeveler (far_enough fpu pinned e n)
            (add_sample-IsLeveler f (is_perimeter l.rec) w o) w

  compute_volumes-IsLeveler :
      {l r : Leveler} {ok : Bool} (fuel : ℕ)
      → IsLeveler l
      → leveler_compute_volumes fpu fuel l ≡ some (r, ok)
      → IsLeveler r
  unfolding leveler_compute_volumes
  compute_volumes-IsLeveler {l} fuel v h = ground arith

  -- In every state that calls reach from start-up the number of points is that of the sums, the
  -- arrays are within their 2000 and 8000 entries, points, a recording gate and a target plane
  -- only exist with an origin, with a target plane the mode is balance or flat, and volumes only
  -- count as valid with a target plane.
  pub Reachable-IsLeveler : {l : Leveler} → Reachable fpu l → IsLeveler l
  Reachable-IsLeveler (start b p) = leveler_init-IsLeveler b p
  Reachable-IsLeveler (step r clear) = leveler_survey_clear-IsLeveler (Reachable-IsLeveler r)
  Reachable-IsLeveler (step r fit) = leveler_fit_balance-IsLeveler (Reachable-IsLeveler r)
  Reachable-IsLeveler (step r (add g)) =
      leveler_survey_add_current-IsLeveler g (Reachable-IsLeveler r)
  Reachable-IsLeveler (step r (flat g)) = leveler_set_flat_here-IsLeveler g (Reachable-IsLeveler r)
  Reachable-IsLeveler (step r (gate g)) = leveler_record_tick-IsLeveler g (Reachable-IsLeveler r)
  Reachable-IsLeveler (step r (switch mode)) =
      leveler_record_set-IsLeveler mode (Reachable-IsLeveler r)
  Reachable-IsLeveler (step r (volumes fuel h)) =
      compute_volumes-IsLeveler fuel (Reachable-IsLeveler r) h
  Reachable-IsLeveler (step r (demo fuel h)) =
      leveler_demo_field-IsLeveler fpu fuel (Reachable-IsLeveler r) h
