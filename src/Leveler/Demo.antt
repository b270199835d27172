-- ===== src/Leveler/Demo.antt =====
-- main/leveler.c: the demonstration field.
use tab5_client.Prelude.{ℕ, zero, suc, ◌+◌, true, false, Option, none, some, if◌then◌else◌, u32}
use tab5_client.Float.{F64, Fpu}
use tab5_client.Cutfill.{
  cutfill_geo_init, cutfill_survey_reset, cutfill_survey_add_en, cutfill_fit_balance,
}
use tab5_client.Fieldmap.{Fieldmap, fieldmap_reset, fieldmap_boundary_add, fieldmap_point_add}
use tab5_client.Leveler.{Leveler, mode_balance}

-- 60, 40, 2, 0.02, 0.01, 0.06, 0.2 and 0.25.
abbrev pub demo_w : F64
demo_w = 0x404E000000000000

abbrev pub demo_h : F64
demo_h = 0x4044000000000000

abbrev pub f64_2 : F64
f64_2 = 0x4000000000000000

abbrev f64_0_02 : F64
f64_0_02 = 0x3F947AE147AE147B

abbrev f64_0_01 : F64
f64_0_01 = 0x3F847AE147AE147B

abbrev f64_0_06 : F64
f64_0_06 = 0x3FAEB851EB851EB8

abbrev f64_0_2 : F64
f64_0_2 = 0x3FC999999999999A

abbrev f64_0_25 : F64
f64_0_25 = 0x3FD0000000000000

module _ (fpu : Fpu) where
  infixl 65 ◌∔◌ ◌∸◌
  infixl 70 ◌∗◌
  abbrev ◌∔◌ : F64 → F64 → F64
  x ∔ y = fpu.f64_add x y

  abbrev ◌∸◌ : F64 → F64 → F64
  x ∸ y = fpu.f64_sub x y

  abbrev ◌∗◌ : F64 → F64 → F64
  x ∗ y = fpu.f64_mul x y

  abbrev pub demo_z : F64 → F64 → F64
  demo_z e n =
      f64_0_02 ∗ e
      ∸ f64_0_01 ∗ n
      ∔ f64_0_06 ∗ fpu.f64_sin (e ∗ f64_0_2) ∗ fpu.f64_cos (n ∗ f64_0_25)

  abbrev pub demo_point : F64 → F64 → Leveler → Leveler
  demo_point e n l =
      let z = demo_z e n in
      record l {
        field = fieldmap_point_add l.field e n z;
        survey = cutfill_survey_add_en fpu l.survey l.geo e n z;
        points = u32 (l.points + 1);
      }

  -- The loops step a `double` by 2 and take fuel; `none` is a loop that has not ended.
  unfoldable pub demo_column : ℕ → F64 → F64 → Leveler → Option Leveler
  demo_column zero e n l = none
  demo_column (suc fuel) e n l = elim (fpu.f64_le n demo_h) [
    | true ↦ demo_column fuel e (n ∔ f64_2) (demo_point e n l)
    | false ↦ some l
  ]

  unfoldable pub demo_rows : ℕ → F64 → Leveler → Option Leveler
  unfolding demo_column
  demo_rows zero e l = none
  demo_rows (suc fuel) e l = elim (fpu.f64_le e demo_w) [
    | true ↦ elim (demo_column (suc fuel) e 0 l) [
      | some r ↦ demo_rows fuel (e ∔ f64_2) r
      | none ↦ none
    ]
    | false ↦ some l
  ]

  abbrev pub demo_fit : Leveler → Leveler
  demo_fit l = record l {
    plane = (cutfill_fit_balance fpu l.survey l.plane).0;
    mode = mode_balance;
    vol_valid = false;
  }

  -- A rectangle of 60 by 40 metres.
  abbrev pub demo_boundary : Fieldmap → Fieldmap
  demo_boundary f =
      fieldmap_boundary_add
        (fieldmap_boundary_add (fieldmap_boundary_add (fieldmap_boundary_add f 0 0) demo_w 0) demo_w
          demo_h)
        0 demo_h

  abbrev pub demo_start : Leveler → Leveler
  demo_start l = record l {
    geo = if l.geo.is_set then l.geo else cutfill_geo_init fpu 0 0 0;
    survey = cutfill_survey_reset;
    field = demo_boundary (fieldmap_reset l.field);
    points = 0;
    boundary = 4;
  }

  unfoldable pub leveler_demo_field : ℕ → Leveler → Option Leveler
  leveler_demo_field fuel l = elim (demo_rows fuel 0 (demo_start l)) [
    | some r ↦ some (demo_fit r)
    | none ↦ none
  ]
