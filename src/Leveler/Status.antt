-- ===== src/Leveler/Status.antt =====
-- main/leveler.c: `leveler_get`, the status that the screens and the logger read.
use tab5_client.Prelude.Int.{pos, ℤ}
use tab5_client.Leveler.{leveler_deadband_m, Fix, Leveler, Mode, Rec, current_fix}
use tab5_client.Gnss.{GnssSnapshot}
use tab5_client.Float.{F64, Fpu}
use tab5_client.Fieldmap.{fieldmap_area}
use tab5_client.Cutfill.{cutfill_classify, cutfill_delta}
use tab5_client.Prelude.{ℕ, Bool, true, false, Option, none, some, if◌then◌else◌}

pub record LevelerStatus : Type 0 where
  pub has_origin : Bool
  pub mode : Mode
  pub rec : Rec
  pub survey_points : ℕ
  pub boundary_pts : ℕ
  pub area_m2 : F64
  pub fix_usable : Bool
  pub have_delta : Bool
  pub delta_m : F64
  pub state : ℤ
  pub vol_valid : Bool
  pub cut_m3 : F64
  pub fill_m3 : F64
  pub net_m3 : F64

module _ (fpu : Fpu) where
  abbrev status_base : Leveler → Bool → LevelerStatus
  status_base l fix_usable = record {
    has_origin = l.geo.is_set;
    mode = l.mode;
    rec = l.rec;
    survey_points = l.points;
    boundary_pts = l.boundary;
    area_m2 = fieldmap_area fpu l.field;
    fix_usable = fix_usable;
    have_delta = false;
    delta_m = 0;
    state = pos 0;
    vol_valid = l.vol_valid;
    cut_m3 = if l.vol_valid then l.vol.cut_m3 else 0;
    fill_m3 = if l.vol_valid then l.vol.fill_m3 else 0;
    net_m3 = if l.vol_valid then l.vol.net_m3 else 0;
  }

  abbrev status_fix : Leveler → Option Fix → LevelerStatus
  status_fix l none = status_base l false
  status_fix l (some f) =
      let delta = cutfill_delta fpu l.geo l.plane f.lat f.lon f.h in
      if l.plane.valid
      then record (status_base l true) {
        delta_m = delta;
        have_delta = true;
        state = cutfill_classify fpu delta leveler_deadband_m;
      }
      else status_base l true

  unfoldable pub leveler_get : Leveler → GnssSnapshot → LevelerStatus
  leveler_get l g = status_fix l (current_fix fpu g)
