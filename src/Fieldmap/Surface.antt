-- ===== src/Fieldmap/Surface.antt =====
-- main/fieldmap.c: the surface through the cloud of points, a moving least-squares plane. The
-- solver is the copy that this file has of the one in main/cutfill.c.
use tab5_client.Prelude.{Option, none, some, List, [], ◌∷◌, ◌==◌, if◌then◌else◌, length}
use tab5_client.Float.{F32, F64, Fpu}
use tab5_client.Fieldmap.{Fieldmap, Pt}

abbrev pub f64_one : F64
f64_one = 0x3FF0000000000000

-- 1e-9, and the floats 1 and 1e-6.
abbrev f64_1e_9 : F64
f64_1e_9 = 0x3E112E0BE826D695

abbrev f32_one : F32
f32_one = 0x3F800000

abbrev f32_1e_6 : F32
f32_1e_6 = 0x358637BD

-- The sums of the loop of `mls_height`, in single precision.
pub record Sums : Type 0 where
  pub see : F32
  pub sen : F32
  pub se : F32
  pub snn : F32
  pub sn : F32
  pub sw : F32
  pub sez : F32
  pub snz : F32
  pub sz : F32

abbrev pub no_sums : Sums
no_sums = record { see = 0; sen = 0; se = 0; snn = 0; sn = 0; sw = 0; sez = 0; snz = 0; sz = 0 }

module _ (fpu : Fpu) where
  infixl 65 ◌⊞◌
  infixl 70 ◌⊠◌
  abbrev ◌⊞◌ : F32 → F32 → F32
  x ⊞ y = fpu.f32_add x y

  abbrev ◌⊠◌ : F32 → F32 → F32
  x ⊠ y = fpu.f32_mul x y

  infixl 65 ◌∔◌ ◌∸◌
  infixl 70 ◌∗◌
  abbrev ◌∔◌ : F64 → F64 → F64
  x ∔ y = fpu.f64_add x y

  abbrev ◌∸◌ : F64 → F64 → F64
  x ∸ y = fpu.f64_sub x y

  abbrev ◌∗◌ : F64 → F64 → F64
  x ∗ y = fpu.f64_mul x y

  unfoldable pub solve3 :
      F64 → F64 → F64 → F64 → F64 → F64 → F64 → F64 → F64 → Option (F64 × F64 × F64)
  solve3 a11 a12 a13 a22 a23 a33 r1 r2 r3 =
      let det =
        a11 ∗ (a22 ∗ a33 ∸ a23 ∗ a23)
        ∸ a12 ∗ (a12 ∗ a33 ∸ a23 ∗ a13)
        ∔ a13 ∗ (a12 ∗ a23 ∸ a22 ∗ a13) in
      let scale = fpu.f64_abs a11 ∔ fpu.f64_abs a22 ∔ fpu.f64_abs a33 ∔ f64_one in
      let inv = fpu.f64_div f64_one det in
      let dx =
        r1 ∗ (a22 ∗ a33 ∸ a23 ∗ a23) ∸ a12 ∗ (r2 ∗ a33 ∸ a23 ∗ r3) ∔ a13 ∗ (r2 ∗ a23 ∸ a22 ∗ r3) in
      let dy =
        a11 ∗ (r2 ∗ a33 ∸ a23 ∗ r3) ∸ r1 ∗ (a12 ∗ a33 ∸ a23 ∗ a13) ∔ a13 ∗ (a12 ∗ r3 ∸ r2 ∗ a13) in
      let dz =
        a11 ∗ (a22 ∗ r3 ∸ r2 ∗ a23) ∸ a12 ∗ (a12 ∗ r3 ∸ r2 ∗ a13) ∔ r1 ∗ (a12 ∗ a23 ∸ a22 ∗ a13) in
      if fpu.f64_lt (fpu.f64_abs det) (f64_1e_9 ∗ scale ∗ scale ∗ scale)
      then none
      else some (dx ∗ inv, dy ∗ inv, dz ∗ inv)

  abbrev pub add_point : F64 → F64 → Sums → Pt → Sums
  add_point e0 n0 s p =
      let de = fpu.f32_of_f64 (p.e ∸ e0) in
      let dn = fpu.f32_of_f64 (p.n ∸ n0) in
      let z = fpu.f32_of_f64 p.z in
      let w = fpu.f32_div f32_one (de ⊠ de ⊞ dn ⊠ dn ⊞ f32_1e_6) in
      record {
        see = s.see ⊞ w ⊠ de ⊠ de;
        sen = s.sen ⊞ w ⊠ de ⊠ dn;
        se = s.se ⊞ w ⊠ de;
        snn = s.snn ⊞ w ⊠ dn ⊠ dn;
        sn = s.sn ⊞ w ⊠ dn;
        sw = s.sw ⊞ w;
        sez = s.sez ⊞ w ⊠ de ⊠ z;
        snz = s.snz ⊞ w ⊠ dn ⊠ z;
        sz = s.sz ⊞ w ⊠ z;
      }

  unfoldable pub mls_loop : F64 → F64 → Sums → List Pt → Sums
  mls_loop e0 n0 s [] = s
  mls_loop e0 n0 s (p ∷ ps) = mls_loop e0 n0 (add_point e0 n0 s p) ps

  abbrev wide : F32 → F64
  wide x = fpu.f64_of_f32 x

  -- The height of the fitted plane, or the weighted mean where none is fitted.
  abbrev pub height_of : Sums → Option (F64 × F64 × F64) → F64
  height_of s (some (a, b, c)) = c
  height_of s none = if fpu.f32_lt 0 s.sw then wide (fpu.f32_div s.sz s.sw) else 0

  unfoldable pub mls_height : Fieldmap → F64 → F64 → F64
  unfolding mls_loop
  mls_height m e0 n0 =
      let s = mls_loop e0 n0 no_sums m.pts in
      height_of s (
        solve3 (wide s.see) (wide s.sen) (wide s.se) (wide s.snn) (wide s.sn) (wide s.sw)
          (wide s.sez) (wide s.snz) (wide s.sz))

  unfoldable pub fieldmap_surface_at : Fieldmap → F64 → F64 → F64
  fieldmap_surface_at m e n = if length m.pts == 0 then 0 else mls_height m e n
