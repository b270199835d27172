-- ===== src/Cutfill.antt =====
-- main/cutfill.c: the local tangent plane, the survey's sums, and target planes.
use tab5_client.Prelude.{
  ℕ, ◌+◌, Bool, true, false, Option, none, some, ltb, ◌==◌, if◌then◌else◌, u32,
}
use tab5_client.Prelude.Int.{ℤ, pos, negsuc}
use tab5_client.Float.{F64, Fpu}

abbrev wgs84_a : F64
wgs84_a = 0x415854a640000000

abbrev pub f64_1 : F64
f64_1 = 0x3FF0000000000000

abbrev f64_1e_9 : F64
f64_1e_9 = 0x3e112e0be826d695

pub record Geo : Type 0 where
  pub lat0_rad : F64
  pub lon0_rad : F64
  pub coslat0 : F64
  pub h0 : F64
  pub is_set : Bool

pub record Survey : Type 0 where
  pub sum_e : F64
  pub sum_n : F64
  pub sum_z : F64
  pub sum_ee : F64
  pub sum_nn : F64
  pub sum_en : F64
  pub sum_ez : F64
  pub sum_nz : F64
  pub n : ℕ

pub record Plane : Type 0 where
  pub a : F64
  pub b : F64
  pub c : F64
  pub valid : Bool

-- `memset` to zero.
abbrev pub no_geo : Geo
no_geo = record { lat0_rad = 0; lon0_rad = 0; coslat0 = 0; h0 = 0; is_set = false }

abbrev pub cutfill_survey_reset : Survey
cutfill_survey_reset = record {
  sum_e = 0;
  sum_n = 0;
  sum_z = 0;
  sum_ee = 0;
  sum_nn = 0;
  sum_en = 0;
  sum_ez = 0;
  sum_nz = 0;
  n = 0;
}

abbrev pub no_plane : Plane
no_plane = record { a = 0; b = 0; c = 0; valid = false }

module _ (fpu : Fpu) where
  infixl 65 ◌⊕◌ ◌⊖◌
  infixl 70 ◌⊗◌
  abbrev ◌⊕◌ : F64 → F64 → F64
  x ⊕ y = fpu.f64_add x y

  abbrev ◌⊖◌ : F64 → F64 → F64
  x ⊖ y = fpu.f64_sub x y

  abbrev ◌⊗◌ : F64 → F64 → F64
  x ⊗ y = fpu.f64_mul x y

  unfoldable pub cutfill_geo_init : F64 → F64 → F64 → Geo
  cutfill_geo_init lat_rad lon_rad h0 = record {
    lat0_rad = lat_rad;
    lon0_rad = lon_rad;
    coslat0 = fpu.f64_cos lat_rad;
    h0 = h0;
    is_set = true;
  }

  -- East and North.
  unfoldable pub cutfill_project : Geo → F64 → F64 → F64 × F64
  cutfill_project g lat_rad lon_rad =
      ((lon_rad ⊖ g.lon0_rad) ⊗ g.coslat0 ⊗ wgs84_a, (lat_rad ⊖ g.lat0_rad) ⊗ wgs84_a)

  unfoldable pub cutfill_survey_add_en : Survey → Geo → F64 → F64 → F64 → Survey
  cutfill_survey_add_en s g east_m north_m h =
      let z = h ⊖ g.h0 in
      record {
        sum_e = s.sum_e ⊕ east_m;
        sum_n = s.sum_n ⊕ north_m;
        sum_z = s.sum_z ⊕ z;
        sum_ee = s.sum_ee ⊕ east_m ⊗ east_m;
        sum_nn = s.sum_nn ⊕ north_m ⊗ north_m;
        sum_en = s.sum_en ⊕ east_m ⊗ north_m;
        sum_ez = s.sum_ez ⊕ east_m ⊗ z;
        sum_nz = s.sum_nz ⊕ north_m ⊗ z;
        n = u32 (s.n + 1);
      }

  unfoldable pub cutfill_survey_add_ll : Survey → Geo → F64 → F64 → F64 → Survey
  cutfill_survey_add_ll s g lat_rad lon_rad h =
      let (e, n) = cutfill_project g lat_rad lon_rad in cutfill_survey_add_en s g e n h

  unfoldable pub solve3 :
      F64 → F64 → F64 → F64 → F64 → F64 → F64 → F64 → F64 → Option (F64 × F64 × F64)
  solve3 a11 a12 a13 a22 a23 a33 r1 r2 r3 =
      let det =
        a11 ⊗ (a22 ⊗ a33 ⊖ a23 ⊗ a23)
        ⊖ a12 ⊗ (a12 ⊗ a33 ⊖ a23 ⊗ a13)
        ⊕ a13 ⊗ (a12 ⊗ a23 ⊖ a22 ⊗ a13) in
      let scale = fpu.f64_abs a11 ⊕ fpu.f64_abs a22 ⊕ fpu.f64_abs a33 ⊕ f64_1 in
      let inv = fpu.f64_div f64_1 det in
      let dx =
        r1 ⊗ (a22 ⊗ a33 ⊖ a23 ⊗ a23) ⊖ a12 ⊗ (r2 ⊗ a33 ⊖ a23 ⊗ r3) ⊕ a13 ⊗ (r2 ⊗ a23 ⊖ a22 ⊗ r3) in
      let dy =
        a11 ⊗ (r2 ⊗ a33 ⊖ a23 ⊗ r3) ⊖ r1 ⊗ (a12 ⊗ a33 ⊖ a23 ⊗ a13) ⊕ a13 ⊗ (a12 ⊗ r3 ⊖ r2 ⊗ a13) in
      let dz =
        a11 ⊗ (a22 ⊗ r3 ⊖ r2 ⊗ a23) ⊖ a12 ⊗ (a12 ⊗ r3 ⊖ r2 ⊗ a13) ⊕ r1 ⊗ (a12 ⊗ a23 ⊖ a22 ⊗ a13) in
      if fpu.f64_lt (fpu.f64_abs det) (f64_1e_9 ⊗ scale ⊗ scale ⊗ scale)
      then none
      else some (dx ⊗ inv, dy ⊗ inv, dz ⊗ inv)

  -- The plane, and whether it was fitted.
  abbrev pub fitted : Plane → Option (F64 × F64 × F64) → Plane × Bool
  fitted p none = (record p { valid = false }, false)
  fitted p (some (a, b, c)) = (record { a = a; b = b; c = c; valid = true }, true)

  unfoldable pub cutfill_fit_balance : Survey → Plane → Plane × Bool
  cutfill_fit_balance s plane = fitted plane (
      if ltb s.n 3
      then none
      else solve3 s.sum_ee s.sum_en s.sum_e s.sum_nn s.sum_n (fpu.f64_of_u32 s.n) s.sum_ez s.sum_nz
          s.sum_z)

  unfoldable pub cutfill_plane_flat : Geo → F64 → Plane
  cutfill_plane_flat g target_height = record {
    a = 0;
    b = 0;
    c = target_height ⊖ g.h0;
    valid = true;
  }

  unfoldable pub cutfill_fit_slope : Survey → F64 → F64 → Plane → Plane × Bool
  cutfill_fit_slope s a b plane =
      let c = fpu.f64_div (s.sum_z ⊖ a ⊗ s.sum_e ⊖ b ⊗ s.sum_n) (fpu.f64_of_u32 s.n) in
      fitted plane (if s.n == 0 then none else some (a, b, c))

  unfoldable pub cutfill_target_height : Geo → Plane → F64 → F64 → F64
  cutfill_target_height g plane east_m north_m =
      g.h0 ⊕ plane.a ⊗ east_m ⊕ plane.b ⊗ north_m ⊕ plane.c

  unfoldable pub cutfill_delta : Geo → Plane → F64 → F64 → F64 → F64
  cutfill_delta g plane lat_rad lon_rad height =
      let (e, n) = cutfill_project g lat_rad lon_rad in height ⊖ cutfill_target_height g plane e n

  unfoldable pub cutfill_classify : F64 → F64 → ℤ
  cutfill_classify delta_m deadband_m =
      if fpu.f64_lt deadband_m delta_m
      then pos 1
      else if fpu.f64_lt delta_m (fpu.f64_neg deadband_m)
      then negsuc 0
      else pos 0
