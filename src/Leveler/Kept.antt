-- ===== src/Leveler/Kept.antt =====
-- main/leveler.c: what its calls keep to, and the steps of the arrays and of the fit.
use tab5_client.Prelude.{
  ◌≤◌, ◌<◌, ◌≡◌, refl, inl, inr, Bool, true, false, Option, none, some, [], ◌∷◌, arith, ltb,
  if◌then◌else◌, Bool-cases, length, length-append,
}
use tab5_client.Float.{F64, Fpu}
use tab5_client.Cutfill.{Survey, Plane, cutfill_fit_balance, solve3, fitted}
use tab5_client.Fieldmap.{
  Fieldmap, max_boundary, max_points, fieldmap_boundary_add, fieldmap_point_add,
}
use tab5_client.Leveler.{Leveler, Mode, mode_none, mode_balance, mode_flat}

abbrev pub has_target : Mode → Bool
has_target mode_none = false
has_target mode_balance = true
has_target mode_flat = true

-- The counters are those of the sums; the arrays stay in bounds; points, a gate and a target
-- plane only exist with an origin; with a target plane the mode is not "none"; and volumes only
-- count as valid with a target plane.
pub record IsLeveler (l : Leveler) : Type 0 where
  pub counted : l.survey.n ≡ l.points
  pub boundary_fits : length l.field.bound ≤ max_boundary
  pub points_fit : length l.field.pts ≤ max_points
  pub sampled : 0 < l.points → l.geo.is_set ≡ true
  pub gated : l.have_last ≡ true → l.geo.is_set ≡ true
  pub planned : l.plane.valid ≡ true → (l.geo.is_set ≡ true) × (has_target l.mode ≡ true)
  pub current : l.vol_valid ≡ true → l.plane.valid ≡ true

pub length-boundary_add :
    (f : Fieldmap) (e n : F64)
    → length f.bound ≤ max_boundary
    → (length (fieldmap_boundary_add f e n).bound ≤ max_boundary)
      × ((fieldmap_boundary_add f e n).pts ≡ f.pts)
unfolding fieldmap_boundary_add
length-boundary_add f e n h = ground (arith, length-append f.bound (record { e = e; n = n } ∷ []))

pub length-point_add :
    (f : Fieldmap) (e n z : F64)
    → length f.pts ≤ max_points
    → (length (fieldmap_point_add f e n z).pts ≤ max_points)
      × ((fieldmap_point_add f e n z).bound ≡ f.bound)
unfolding fieldmap_point_add
length-point_add f e n z h =
    ground (arith, length-append f.pts (record { e = e; n = n; z = z } ∷ []))

module _ (fpu : Fpu) where
  fitted-agrees :
      (p : Plane) (o : Option (F64 × F64 × F64)) → (fitted fpu p o).0.valid ≡ (fitted fpu p o).1
  fitted-agrees p none = refl
  fitted-agrees p (some (a, b, c)) = refl

  pub fit_balance-agrees :
      (s : Survey) (p : Plane)
      → (cutfill_fit_balance fpu s p).0.valid ≡ (cutfill_fit_balance fpu s p).1
  unfolding cutfill_fit_balance
  fit_balance-agrees s p = fitted-agrees p (
      if ltb s.n 3
      then none
      else solve3 fpu s.sum_ee s.sum_en s.sum_e s.sum_nn s.sum_n (fpu.f64_of_u32 s.n) s.sum_ez
          s.sum_nz s.sum_z)

  pub fit_balance-few : (s : Survey) (p : Plane) → (cutfill_fit_balance fpu s p).1 ≡ true → 3 ≤ s.n
  unfolding cutfill_fit_balance
  fit_balance-few s p h = elim (Bool-cases (ltb s.n 3)) [
    | inl few ↦ absurd (ground (arith, few, h))
    | inr many ↦ ground (arith, many)
  ]
