-- ===== src/Leveler.antt =====
-- main/leveler.c: the survey of a field, its target plane, and the distance-gated recorder. Every
-- function runs under one mutex, so a call is one step here. The receiver's position is read
-- from a snapshot of main/gnss_state.c.
pub mod Kept
pub mod Planting
pub mod Invariant
pub mod Recording
pub mod Demo
pub mod Status
use tab5_client.Prelude.{
  ℕ, ◌+◌, Bool, true, false, not, ◌||◌, Option, none, some, if◌then◌else◌, u32,
}
use tab5_client.Float.{F64, Fpu, is_nan64}
use tab5_client.Gnss.{GnssSnapshot}
use tab5_client.Cutfill.{
  Geo, Survey, Plane, no_geo, no_plane, f64_1, cutfill_survey_reset, cutfill_geo_init,
  cutfill_project, cutfill_survey_add_en, cutfill_fit_balance, cutfill_plane_flat,
}
use tab5_client.Fieldmap.Volume.{FieldmapResult, no_result, fieldmap_compute}
use tab5_client.Fieldmap.{
  Fieldmap, fieldmap_boot, fieldmap_init, fieldmap_reset, fieldmap_boundary_add, fieldmap_point_add,
}

abbrev deg2rad : F64
deg2rad = 0x3f91df46a2529d39

abbrev pub vol_cell_m : F64
vol_cell_m = f64_1

-- 0.03
abbrev leveler_deadband_m : F64
leveler_deadband_m = 0x3F9EB851EB851EB8

abbrev record_gate_m : F64
record_gate_m = f64_1

pub data Mode : Type 0 where
  mode_none mode_balance mode_flat : Mode

pub data Rec : Type 0 where
  rec_off rec_perimeter rec_survey : Rec

abbrev pub is_off : Rec → Bool
is_off rec_off = true
is_off rec_perimeter = false
is_off rec_survey = false

abbrev pub is_perimeter : Rec → Bool
is_perimeter rec_off = false
is_perimeter rec_perimeter = true
is_perimeter rec_survey = false

-- The file's statics, and those of main/fieldmap.c.
pub record Leveler : Type 0 where
  pub geo : Geo
  pub survey : Survey
  pub plane : Plane
  pub mode : Mode
  pub points : ℕ
  pub boundary : ℕ
  pub rec : Rec
  pub have_last : Bool
  pub last_e : F64
  pub last_n : F64
  pub vol : FieldmapResult
  pub vol_valid : Bool
  pub field : Fieldmap

-- Before `leveler_init`: static storage.
abbrev pub leveler_boot : Leveler
leveler_boot = record {
  geo = no_geo;
  survey = cutfill_survey_reset;
  plane = no_plane;
  mode = mode_none;
  points = 0;
  boundary = 0;
  rec = rec_off;
  have_last = false;
  last_e = 0;
  last_n = 0;
  vol = no_result;
  vol_valid = false;
  field = fieldmap_boot;
}

-- With whether the field's two arrays find memory.
unfoldable pub leveler_init : Bool → Bool → Leveler → Leveler
unfolding fieldmap_init
leveler_init b p l = record l {
  geo = no_geo;
  survey = cutfill_survey_reset;
  plane = no_plane;
  mode = mode_none;
  points = 0;
  boundary = 0;
  rec = rec_off;
  have_last = false;
  vol = no_result;
  vol_valid = false;
  field = fieldmap_init b p l.field;
}

unfoldable pub leveler_survey_clear : Leveler → Leveler
unfolding fieldmap_reset
leveler_survey_clear l = record l {
  survey = cutfill_survey_reset;
  field = fieldmap_reset l.field;
  plane = no_plane;
  mode = mode_none;
  points = 0;
  boundary = 0;
  rec = rec_off;
  have_last = false;
  vol_valid = false;
}

-- The distance gate is restarted.
unfoldable pub leveler_record_set : Leveler → Rec → Leveler
leveler_record_set l mode = record l { rec = mode; have_last = false }

-- Latitude and longitude in radians, and the height.
pub record Fix : Type 0 where
  pub lat : F64
  pub lon : F64
  pub h : F64

module _ (fpu : Fpu) where
  unfoldable pub current_fix : GnssSnapshot → Option Fix
  current_fix g =
      if not g.pvt_valid
        || is_nan64 g.pvt.lat_deg
        || is_nan64 g.pvt.lon_deg
        || is_nan64 g.pvt.height_m
      then none
      else some (record {
        lat = fpu.f64_mul g.pvt.lat_deg deg2rad;
        lon = fpu.f64_mul g.pvt.lon_deg deg2rad;
        h = g.pvt.height_m;
      })

  -- The first point pins the origin.
  abbrev pub pin_origin : Leveler → Fix → Leveler
  pin_origin l f =
      if l.geo.is_set then l else record l { geo = cutfill_geo_init fpu f.lat f.lon f.h }

  unfoldable pub add_sample : Leveler → Fix → Bool → Leveler
  add_sample l f as_boundary =
      let (e, n) = cutfill_project fpu l.geo f.lat f.lon in
      let field = fieldmap_point_add l.field e n (fpu.f64_sub f.h l.geo.h0) in
      record l {
        field = if as_boundary then fieldmap_boundary_add field e n else field;
        survey = cutfill_survey_add_en fpu l.survey l.geo e n f.h;
        points = u32 (l.points + 1);
        boundary = if as_boundary then u32 (l.boundary + 1) else l.boundary;
        last_e = e;
        last_n = n;
        have_last = true;
      }

  abbrev pub survey_add : Leveler → Option Fix → Leveler × Bool
  survey_add l none = (l, false)
  survey_add l (some f) = (add_sample (pin_origin l f) f (is_perimeter l.rec), true)

  unfoldable pub leveler_survey_add_current : Leveler → GnssSnapshot → Leveler × Bool
  leveler_survey_add_current l g = survey_add l (current_fix g)

  unfoldable pub leveler_fit_balance : Leveler → Leveler × Bool
  leveler_fit_balance l =
      let (plane, ok) = cutfill_fit_balance fpu l.survey l.plane in
      (
        record l { plane = plane; mode = if ok then mode_balance else l.mode; vol_valid = false },
        ok,
      )

  abbrev pub set_flat : Leveler → Option Fix → Leveler × Bool
  set_flat l none = (l, false)
  set_flat l (some f) =
      let pinned = pin_origin l f in
      (
        record pinned {
          plane = cutfill_plane_flat fpu pinned.geo f.h;
          mode = mode_flat;
          vol_valid = false;
        },
        true,
      )

  unfoldable pub leveler_set_flat_here : Leveler → GnssSnapshot → Leveler × Bool
  leveler_set_flat_here l g = set_flat l (current_fix g)

  abbrev pub far_enough : Leveler → F64 → F64 → Bool
  far_enough l e n =
      let de = fpu.f64_sub e l.last_e in
      let dn = fpu.f64_sub n l.last_n in
      if l.have_last
      then fpu.f64_le (fpu.f64_mul record_gate_m record_gate_m)
          (fpu.f64_add (fpu.f64_mul de de) (fpu.f64_mul dn dn))
      else true

  abbrev pub record_fix : Leveler → Option Fix → Leveler
  record_fix l none = l
  record_fix l (some f) =
      let pinned = pin_origin l f in
      let (e, n) = cutfill_project fpu pinned.geo f.lat f.lon in
      if far_enough pinned e n then add_sample pinned f (is_perimeter l.rec) else pinned

  unfoldable pub leveler_record_tick : Leveler → GnssSnapshot → Leveler
  leveler_record_tick l g = if is_off l.rec then l else record_fix l (current_fix g)

  unfoldable pub leveler_get_plane : Leveler → Option (F64 × F64 × F64)
  leveler_get_plane l = if l.plane.valid then some (l.plane.a, l.plane.b, l.plane.c) else none

  abbrev pub project_fix : Leveler → Option Fix → Option (F64 × F64)
  project_fix l none = none
  project_fix l (some f) =
      if l.geo.is_set then some (cutfill_project fpu l.geo f.lat f.lon) else none

  unfoldable pub leveler_current_en : Leveler → GnssSnapshot → Option (F64 × F64)
  leveler_current_en l g = project_fix l (current_fix g)

  abbrev pub with_volumes : Leveler → Option FieldmapResult → Option (Leveler × Bool)
  with_volumes l none = none
  with_volumes l (some r) = some (record l { vol = r; vol_valid = r.valid }, r.valid)

  -- With fuel for the loops of `fieldmap_compute`.
  unfoldable pub leveler_compute_volumes : ℕ → Leveler → Option (Leveler × Bool)
  leveler_compute_volumes fuel l =
      if l.plane.valid
      then with_volumes l
          (fieldmap_compute fpu fuel l.field l.plane.a l.plane.b l.plane.c vol_cell_m)
      else some (record l { vol_valid = false }, false)
