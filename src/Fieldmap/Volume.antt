-- ===== src/Fieldmap/Volume.antt =====
-- main/fieldmap.c: `fieldmap_compute`, the volumes of cut and fill over a grid. Its three loops
-- step a `double`, so they take fuel; `none` is a loop that has not ended.
use tab5_client.Prelude.{
  ℕ, zero, suc, ◌+◌, Bool, true, false, ◌||◌, Option, none, some, List, [], ◌∷◌, ltb, ◌==◌,
  if◌then◌else◌, length, u32,
}
use tab5_client.Float.{F64, Fpu}
use tab5_client.Fieldmap.{Fieldmap, Box, bbox_of, fieldmap_inside, fieldmap_area}
use tab5_client.Fieldmap.Surface.{mls_height, f64_one}

pub record FieldmapResult : Type 0 where
  pub area_m2 : F64
  pub cut_m3 : F64
  pub fill_m3 : F64
  pub net_m3 : F64
  pub cut_mean_m : F64
  pub fill_mean_m : F64
  pub cells : ℕ
  pub valid : Bool

abbrev pub no_result : FieldmapResult
no_result = record {
  area_m2 = 0;
  cut_m3 = 0;
  fill_m3 = 0;
  net_m3 = 0;
  cut_mean_m = 0;
  fill_mean_m = 0;
  cells = 0;
  valid = false;
}

-- The sums of the integration.
pub record Totals : Type 0 where
  pub cut : F64
  pub fill : F64
  pub cut_area : F64
  pub fill_area : F64
  pub cells : ℕ

abbrev pub no_totals : Totals
no_totals = record { cut = 0; fill = 0; cut_area = 0; fill_area = 0; cells = 0 }

-- 40000, 1e6, 1.5 and 0.5.
abbrev max_cells : F64
max_cells = 0x40E3880000000000

abbrev f64_1e6 : F64
f64_1e6 = 0x412E848000000000

abbrev f64_1_5 : F64
f64_1_5 = 0x3FF8000000000000

abbrev pub f64_0_5 : F64
f64_0_5 = 0x3FE0000000000000

module _ (fpu : Fpu) where
  -- The values of the variable of `for (x = ...; x < hi; x += d)`.
  unfoldable pub steps : ℕ → F64 → F64 → F64 → Option (List F64)
  steps zero x hi d = none
  steps (suc fuel) x hi d = elim (fpu.f64_lt x hi) [
    | true ↦ elim (steps fuel (fpu.f64_add x d) hi d) [ some xs ↦ some (x ∷ xs) | none ↦ none ]
    | false ↦ some []
  ]

  -- Whether the grid of a cell size is small enough, or the cell large enough.
  abbrev pub cell_fits : Box → F64 → Bool
  cell_fits b cell_m =
      let nx = fpu.f64_ceil (fpu.f64_div (fpu.f64_sub b.e1 b.e0) cell_m) in
      let ny = fpu.f64_ceil (fpu.f64_div (fpu.f64_sub b.n1 b.n0) cell_m) in
      fpu.f64_le (fpu.f64_mul nx ny) max_cells || fpu.f64_lt f64_1e6 cell_m

  unfoldable pub enlarge : ℕ → Box → F64 → Option F64
  enlarge zero b cell_m = none
  enlarge (suc fuel) b cell_m = elim (cell_fits b cell_m) [
    | true ↦ some cell_m
    | false ↦ enlarge fuel b (fpu.f64_mul cell_m f64_1_5)
  ]

  -- A cell inside the polygon, with the ground's height above the target.
  abbrev pub add_dev : F64 → Totals → F64 → Totals
  add_dev cell_area t dev =
      let counted = record t { cells = u32 (t.cells + 1) } in
      if fpu.f64_lt 0 dev
      then record counted {
        cut = fpu.f64_add t.cut (fpu.f64_mul dev cell_area);
        cut_area = fpu.f64_add t.cut_area cell_area;
      }
      else record counted {
        fill = fpu.f64_add t.fill (fpu.f64_mul (fpu.f64_neg dev) cell_area);
        fill_area = fpu.f64_add t.fill_area cell_area;
      }

  module _ (m : Fieldmap) (a b c cell_area : F64) where
    abbrev pub deviation : F64 → F64 → F64
    deviation e n =
        fpu.f64_sub (mls_height fpu m e n)
          (fpu.f64_add (fpu.f64_add (fpu.f64_mul a e) (fpu.f64_mul b n)) c)

    -- The inner loop, along a row, and the outer one.
    unfoldable pub row_loop : List F64 → F64 → Totals → Totals
    row_loop [] n t = t
    row_loop (e ∷ es) n t =
        row_loop es n (if fieldmap_inside fpu m e n then add_dev cell_area t (deviation e n) else t)

    unfoldable pub grid_loop : List F64 → List F64 → Totals → Totals
    unfolding row_loop
    grid_loop es [] t = t
    grid_loop es (n ∷ ns) t = grid_loop es ns (row_loop es n t)

  abbrev pub result_of : F64 → Totals → FieldmapResult
  result_of area t = record {
    area_m2 = area;
    cut_m3 = t.cut;
    fill_m3 = t.fill;
    net_m3 = fpu.f64_sub t.cut t.fill;
    cut_mean_m = if fpu.f64_lt 0 t.cut_area then fpu.f64_div t.cut t.cut_area else 0;
    fill_mean_m = if fpu.f64_lt 0 t.fill_area then fpu.f64_div t.fill t.fill_area else 0;
    cells = t.cells;
    valid = ltb 0 t.cells;
  }

  abbrev integrate :
      Fieldmap
      → F64
      → F64
      → F64
      → F64
      → Option (List F64)
      → Option (List F64)
      → Option FieldmapResult
  integrate m a b c cell_m none es = none
  integrate m a b c cell_m (some ns) none = none
  integrate m a b c cell_m (some ns) (some es) = some (
      result_of (fieldmap_area fpu m)
        (grid_loop m a b c (fpu.f64_mul cell_m cell_m) es ns no_totals))

  -- Where the samples of a direction start.
  abbrev pub first_centre : F64 → F64 → F64
  first_centre low cell_m = fpu.f64_add low (fpu.f64_mul cell_m f64_0_5)

  abbrev over_grid : ℕ → Fieldmap → F64 → F64 → F64 → Box → Option F64 → Option FieldmapResult
  over_grid fuel m a b c box none = none
  over_grid fuel m a b c box (some cell_m) =
      integrate m a b c cell_m (steps fuel (first_centre box.n0 cell_m) box.n1 cell_m)
        (steps fuel (first_centre box.e0 cell_m) box.e1 cell_m)

  abbrev over_box : ℕ → Fieldmap → F64 → F64 → F64 → F64 → Option Box → Option FieldmapResult
  over_box fuel m a b c cell_m none = some no_result
  over_box fuel m a b c cell_m (some box) = over_grid fuel m a b c box (enlarge fuel box cell_m)

  -- What a call leaves in `out`; it returns the field `valid`.
  unfoldable pub fieldmap_compute : ℕ → Fieldmap → F64 → F64 → F64 → F64 → Option FieldmapResult
  fieldmap_compute fuel m a b c cell_m =
      if ltb (length m.bound) 3 || length m.pts == 0
      then some no_result
      else over_box fuel m a b c (if fpu.f64_le cell_m 0 then f64_one else cell_m)
          (bbox_of fpu m.bound)
