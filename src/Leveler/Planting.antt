-- ===== src/Leveler/Planting.antt =====
-- main/leveler.c: the demonstration field keeps to the invariant.
use tab5_client.Prelude.{
  ℕ, zero, suc, ◌≤◌, ◌≡◌, ◌∙◌, inl, inr, true, Option, none, some, arith, Bool-cases, length,
}
use tab5_client.Float.{F64, Fpu}
use tab5_client.Cutfill.{cutfill_geo_init, cutfill_survey_add_en}
use tab5_client.Fieldmap.{Fieldmap, max_boundary, fieldmap_reset, fieldmap_boundary_add}
use tab5_client.Leveler.{Leveler}
use tab5_client.Leveler.Kept.{IsLeveler, length-boundary_add, length-point_add}
use tab5_client.Leveler.Demo.{
  demo_z, demo_point, demo_column, demo_rows, demo_w, demo_h, f64_2, demo_boundary, demo_start,
  demo_fit, leveler_demo_field,
}

module _ (fpu : Fpu) where
  -- What the loops keep.
  abbrev IsPlanted : Leveler → Type 0
  IsPlanted l = IsLeveler l × (l.geo.is_set ≡ true)

  demo_point-IsPlanted : {l : Leveler} (e n : F64) → IsPlanted l → IsPlanted (demo_point fpu e n l)
  unfolding cutfill_survey_add_en
  demo_point-IsPlanted {l} e n p =
      let (v, o) = p in ground (arith, v, length-point_add l.field e n (demo_z fpu e n))

  -- What holds of a loop's result, if it ended.
  abbrev IfEnded : (Leveler → Type 0) → Option Leveler → Type 0
  IfEnded P none = Unit {0}
  IfEnded P (some r) = P r

  demo_column-IsPlanted :
      (fuel : ℕ) (e n : F64) (l : Leveler)
      → IsPlanted l
      → IfEnded IsPlanted (demo_column fpu fuel e n l)
  unfolding demo_column
  demo_column-IsPlanted zero e n l p = tt
  demo_column-IsPlanted (suc fuel) e n l p = elim (Bool-cases (fpu.f64_le n demo_h)) [
    | inl t ↦
        rw (t, demo_column)
          (demo_column-IsPlanted fuel e (fpu.f64_add n f64_2) (demo_point fpu e n l)
            (demo_point-IsPlanted e n p))
    | inr t ↦ rw (t, demo_column) p
  ]

  next_row :
      (o : Option Leveler) (rest : Leveler → Option Leveler)
      → IfEnded IsPlanted o
      → ((r : Leveler) → IsPlanted r → IfEnded IsPlanted (rest r))
      → IfEnded IsPlanted (elim o [ some r ↦ rest r | none ↦ none ])
  next_row none rest p f = tt
  next_row (some r) rest p f = f r p

  demo_rows-IsPlanted :
      (fuel : ℕ) (e : F64) (l : Leveler) → IsPlanted l → IfEnded IsPlanted (demo_rows fpu fuel e l)
  unfolding demo_rows
  demo_rows-IsPlanted zero e l p = tt
  demo_rows-IsPlanted (suc fuel) e l p = elim (Bool-cases (fpu.f64_le e demo_w)) [
    | inl t ↦
        rw (t, demo_rows)
          (next_row (demo_column fpu (suc fuel) e 0 l)
            (λ r. demo_rows fpu fuel (fpu.f64_add e f64_2) r)
            (demo_column-IsPlanted (suc fuel) e 0 l p)
            (λ r q. demo_rows-IsPlanted fuel (fpu.f64_add e f64_2) r q))
    | inr t ↦ rw (t, demo_rows) p
  ]

  demo_boundary-fits :
      (f : Fieldmap)
      → length f.bound ≤ max_boundary
      → (length (demo_boundary fpu f).bound ≤ max_boundary) × ((demo_boundary fpu f).pts ≡ f.pts)
  demo_boundary-fits f h =
      let f1 = fieldmap_boundary_add f 0 0 in
      let f2 = fieldmap_boundary_add f1 demo_w 0 in
      let f3 = fieldmap_boundary_add f2 demo_w demo_h in
      let (a, a') = length-boundary_add f 0 0 h in
      let (b, b') = length-boundary_add f1 demo_w 0 a in
      let (c, c') = length-boundary_add f2 demo_w demo_h b in
      let (d, d') = length-boundary_add f3 0 demo_h c in (d, d' ∙ c' ∙ b' ∙ a')

  demo_start-IsPlanted : {l : Leveler} → IsLeveler l → IsPlanted (demo_start fpu l)
  unfolding cutfill_geo_init fieldmap_reset
  demo_start-IsPlanted {l} v =
      ground (arith, v, demo_boundary-fits (fieldmap_reset l.field) (omega arith))

  demo_fit-IsLeveler : {l : Leveler} → IsPlanted l → IsLeveler (demo_fit fpu l)
  demo_fit-IsLeveler {l} p = let (v, o) = p in ground (arith, v)

  by_rows :
      (o : Option Leveler) {r : Leveler}
      → IfEnded IsPlanted o
      → (elim o [ some r ↦ some (demo_fit fpu r) | none ↦ none ]) ≡ some r
      → IsLeveler r
  by_rows none p h = absurd (cc)
  by_rows (some l) {r} p h = let e : demo_fit fpu l ≡ r = cc in rw (← e) (demo_fit-IsLeveler p)

  pub leveler_demo_field-IsLeveler :
      {l r : Leveler} (fuel : ℕ)
      → IsLeveler l
      → leveler_demo_field fpu fuel l ≡ some r
      → IsLeveler r
  unfolding leveler_demo_field
  leveler_demo_field-IsLeveler {l} fuel v h =
      by_rows (demo_rows fpu fuel 0 (demo_start fpu l))
        (demo_rows-IsPlanted fuel 0 (demo_start fpu l) (demo_start-IsPlanted v)) h
