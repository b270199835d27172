-- ===== src/Map/Visible.antt =====
-- main/map_view.c: what of the field lies so near to the canvas that its pixels are ints.
use tab5_client.Prelude.{
  ℕ, zero, suc, ◌+◌, ◌<◌, ◌≡◌, refl, inl, inr, true, false, Option, none, some, List, [], ◌∷◌,
  arith, Bool-cases,
}
use tab5_client.Prelude.Int.{ℤ, pos, negsuc, ◌+ℤ◌, ◌-ℤ◌}
use tab5_client.Float.{F64, Fpu}
use tab5_client.Fieldmap.{Vtx}
use tab5_client.Fieldmap.Volume.{steps}
use tab5_client.Fieldmap.Grid.{Passes, advance}
use tab5_client.Map.{disc_fits, neg_ℤ}
use tab5_client.Map.Ints.{IsNear, Within, fits_int-Within, +ℤ-Within, -ℤ-Within}
use tab5_client.Map.Heat.{Frame, as_int, half_ℤ, px_round, py_round, tractor_radius, square_fits}

pub IsNear-as_int : (z : ℤ) → IsNear z → as_int z ≡ some z
IsNear-as_int z h = rw (fits_int-Within 67_108_864 z (omega arith) h) refl

pub IsNear-as_int_next : (z : ℤ) → IsNear z → as_int (z +ℤ pos 1) ≡ some (z +ℤ pos 1)
IsNear-as_int_next z h =
    let one : Within 1 (pos 1) = (omega arith, omega arith) in
    rw
      (fits_int-Within 67_108_865 (z +ℤ pos 1) (omega arith)
        (+ℤ-Within 67_108_864 1 z (pos 1) h one))
      refl

half-Within : (n : ℕ) (z : ℤ) → Within n z → Within n (half_ℤ z)
unfolding ◌-ℤ◌
half-Within n (pos z) (p, q) = ground (arith, p, q)
half-Within n (negsuc z) (p, q) = ground (arith, p, q)

-- The half of a cell's pixels, one more than a number nearby.
pub IsNear-half : (z : ℤ) → IsNear z → Within 67_108_865 (half_ℤ (z +ℤ pos 1))
IsNear-half z h =
    let one : Within 1 (pos 1) = (omega arith, omega arith) in
    half-Within 67_108_865 (z +ℤ pos 1) (+ℤ-Within 67_108_864 1 z (pos 1) h one)

pub IsNear-square_fits :
    (half x y : ℤ) → Within 67_108_865 half → IsNear x → IsNear y → square_fits half x y ≡ true
IsNear-square_fits half x y w h k =
    let n = 67_108_864 + 67_108_865 in
    let xl =
      fits_int-Within n (x -ℤ half) (omega arith) (-ℤ-Within 67_108_864 67_108_865 x half h w) in
    let yl =
      fits_int-Within n (y -ℤ half) (omega arith) (-ℤ-Within 67_108_864 67_108_865 y half k w) in
    let xh =
      fits_int-Within n (x +ℤ half) (omega arith) (+ℤ-Within 67_108_864 67_108_865 x half h w) in
    let yh =
      fits_int-Within n (y +ℤ half) (omega arith) (+ℤ-Within 67_108_864 67_108_865 y half k w) in
    rw (xl, yl, xh, yh) refl

pub IsNear-disc_fits : (x y : ℤ) → IsNear x → IsNear y → disc_fits x y tractor_radius ≡ true
unfolding ◌-ℤ◌
IsNear-disc_fits x y h k =
    let n = 67_108_864 + 9 in
    let up : Within 9 (pos 9) = (omega arith, omega arith) in
    let below : Within 9 (neg_ℤ (pos 9)) = (omega arith, omega arith) in
    let xl =
      fits_int-Within n (x +ℤ neg_ℤ (pos 9)) (omega arith)
        (+ℤ-Within 67_108_864 9 x (neg_ℤ (pos 9)) h below) in
    let yl =
      fits_int-Within n (y +ℤ neg_ℤ (pos 9)) (omega arith)
        (+ℤ-Within 67_108_864 9 y (neg_ℤ (pos 9)) k below) in
    let xh = fits_int-Within n (x +ℤ pos 9) (omega arith) (+ℤ-Within 67_108_864 9 x (pos 9) h up) in
    let yh = fits_int-Within n (y +ℤ pos 9) (omega arith) (+ℤ-Within 67_108_864 9 y (pos 9) k up) in
    rw (xl, yl, xh, yh) refl

abbrev pub AllOf : (F64 → Type 0) → List F64 → Type 0
AllOf P [] = Unit {0}
AllOf P (x ∷ xs) = P x × AllOf P xs

module _ (fpu : Fpu) where
  -- A counting loop's values are the starts and what the additions lead to.
  pub steps-AllOf :
      (P : F64 → Type 0) (fuel k : ℕ) (x hi d : F64)
      → k < fuel
      → Passes fpu k x hi d
      → ((i : ℕ) → i < k → P (advance fpu i x d))
      → (xs : List F64) × (steps fpu fuel x hi d ≡ some xs) × AllOf P xs
  unfolding steps
  steps-AllOf P zero k x hi d l h v = absurd (omega arith)
  steps-AllOf P (suc fuel) zero x hi d l h v =
      let h' : fpu.f64_lt x hi ≡ false = h in ([], rw (h', steps) refl, tt)
  steps-AllOf P (suc fuel) (suc k) x hi d l h v = elim (Bool-cases (fpu.f64_lt x hi)) [
    | inl t ↦
        let (xs, e, all) =
          steps-AllOf P fuel k (fpu.f64_add x d) hi d (omega arith) h
            (λ i b. v (suc i) (omega arith)) in
        (x ∷ xs, rw (t, steps, e) refl, (v zero (omega arith), all))
    | inr t ↦ ([], rw (t, steps) refl, tt)
  ]

  abbrev pub IsVisible : Frame → F64 → F64 → Type 0
  IsVisible f e n = IsNear (px_round fpu f e) × IsNear (py_round fpu f n)

  abbrev pub AllVisible : Frame → List Vtx → Type 0
  AllVisible f [] = Unit {0}
  AllVisible f (v ∷ vs) = IsVisible f v.e v.n × AllVisible f vs

  abbrev pub IsInSight : Frame → Option (F64 × F64) → Type 0
  IsInSight f none = Unit {0}
  IsInSight f (some (e, n)) = IsVisible f e n
