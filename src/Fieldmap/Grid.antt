-- ===== src/Fieldmap/Grid.antt =====
-- main/fieldmap.c: that the loops of `fieldmap_compute` end, and what they add up.
use tab5_client.Prelude.{
  ℕ, zero, suc, ◌+◌, ◌≤◌, ◌<◌, ◌≡◌, refl, sym, ap, ◌∙◌, inl, inr, true, false, ◌||◌, some, List, [],
  ◌∷◌, ◌++◌, arith, ltb, ◌==◌, if◌then◌else◌, Bool-cases, length,
}
use tab5_client.Float.{F64, Fpu}
use tab5_client.Fieldmap.{Fieldmap, Box, bbox_of, fieldmap_inside, fieldmap_area}
use tab5_client.Fieldmap.Surface.{f64_one}
use tab5_client.Fieldmap.Volume.{
  no_totals, Totals, steps, enlarge, cell_fits, add_dev, deviation, row_loop, grid_loop, result_of,
  first_centre, fieldmap_compute,
}

module _ (fpu : Fpu) where
  -- `x` after `k` additions of `d`.
  abbrev pub advance : ℕ → F64 → F64 → F64
  advance zero x d = x
  advance (suc k) x d = advance k (fpu.f64_add x d) d

  -- A variable that is past its bound after `k` additions.
  abbrev pub Passes : ℕ → F64 → F64 → F64 → Type 0
  Passes k x hi d = fpu.f64_lt (advance k x d) hi ≡ false

  -- A counting loop ends within the additions that lead past its bound.
  pub steps-Passes :
      (fuel k : ℕ) (x hi d : F64)
      → k < fuel
      → Passes k x hi d
      → (xs : List F64) × (steps fpu fuel x hi d ≡ some xs) × (length xs ≤ k)
  unfolding steps
  steps-Passes zero k x hi d l h = absurd (omega arith)
  steps-Passes (suc fuel) zero x hi d l h =
      let h' : fpu.f64_lt x hi ≡ false = h in ([], rw (h', steps) refl, omega arith)
  steps-Passes (suc fuel) (suc k) x hi d l h = elim (Bool-cases (fpu.f64_lt x hi)) [
    | inl t ↦
        let (xs, e, n) = steps-Passes fuel k (fpu.f64_add x d) hi d (omega arith) h in
        (x ∷ xs, rw (t, steps, e) refl, omega (arith, n))
    | inr t ↦ ([], rw (t, steps) refl, omega arith)
  ]

  -- `cell` after `k` enlargements.
  abbrev pub enlarged : ℕ → F64 → F64
  enlarged zero cell = cell
  enlarged (suc k) cell = enlarged k (fpu.f64_mul cell 0x3FF8000000000000)

  -- The first size that fits is found.
  pub enlarge-enlarged :
      (fuel k : ℕ) (b : Box) (cell : F64)
      → k < fuel
      → ((i : ℕ) → i < k → cell_fits fpu b (enlarged i cell) ≡ false)
      → cell_fits fpu b (enlarged k cell) ≡ true
      → enlarge fpu fuel b cell ≡ some (enlarged k cell)
  unfolding enlarge
  enlarge-enlarged zero k b cell l small h = absurd (omega arith)
  enlarge-enlarged (suc fuel) zero b cell l small h =
      let h' : cell_fits fpu b cell ≡ true = h in rw (h', enlarge) refl
  enlarge-enlarged (suc fuel) (suc k) b cell l small h =
      rw (small 0 (omega arith), enlarge)
        (enlarge-enlarged fuel k b (fpu.f64_mul cell 0x3FF8000000000000) (omega arith)
          (λ i p. small (suc i) (omega arith)) h)

  module _ (m : Fieldmap) where
    -- The samples inside the boundary, row by row.
    abbrev pub row_samples : List F64 → F64 → List (F64 × F64)
    row_samples [] n = []
    row_samples (e ∷ es) n =
        if fieldmap_inside fpu m e n then (e, n) ∷ row_samples es n else row_samples es n

    abbrev pub grid_samples : List F64 → List F64 → List (F64 × F64)
    grid_samples es [] = []
    grid_samples es (n ∷ ns) = row_samples es n ++ grid_samples es ns

  module _ (m : Fieldmap) (a b c cell_area : F64) where
    abbrev pub sum_samples : List (F64 × F64) → Totals → Totals
    sum_samples [] t = t
    sum_samples ((e, n) ∷ ps) t =
        sum_samples ps (add_dev fpu cell_area t (deviation fpu m a b c cell_area e n))

    row_loop-samples :
        (es : List F64) (n : F64) (ps : List (F64 × F64)) (t : Totals)
        → sum_samples (row_samples m es n ++ ps) t
          ≡ sum_samples ps (row_loop fpu m a b c cell_area es n t)
    unfolding row_loop
    row_loop-samples [] n ps t = refl
    row_loop-samples (e ∷ es) n ps t = elim (Bool-cases (fieldmap_inside fpu m e n)) [
      | inl h ↦
          rw h (
            row_loop-samples es n ps
              (add_dev fpu cell_area t (deviation fpu m a b c cell_area e n)))
      | inr h ↦ rw h (row_loop-samples es n ps t)
    ]

    pub grid_loop-samples :
        (es ns : List F64) (t : Totals)
        → grid_loop fpu m a b c cell_area es ns t ≡ sum_samples (grid_samples m es ns) t
    unfolding grid_loop
    grid_loop-samples es [] t = refl
    grid_loop-samples es (n ∷ ns) t =
        grid_loop-samples es ns (row_loop fpu m a b c cell_area es n t)
        ∙ sym (row_loop-samples es n (grid_samples m es ns) t)

  -- `cell_m` as the loops start with it.
  abbrev pub given_cell : F64 → F64
  given_cell cell_m = if fpu.f64_le cell_m 0 then f64_one else cell_m

  -- The cell size after `j` enlargements.
  abbrev pub cell_after : ℕ → F64 → F64
  cell_after j cell_m = enlarged j (given_cell cell_m)

  -- With a boundary of at least 3 vertices and a point, if the first cell size whose grid is small
  -- enough is the j-th and its steps lead past the box, the computation ends within fuel for those
  -- rounds, and its volumes are the sums over the cell centres inside the boundary, each once, row
  -- by row.
  pub fieldmap_compute-samples :
      (fuel j k l : ℕ) (m : Fieldmap) (a b c cell_m : F64) (box : Box)
      → 3 ≤ length m.bound
      → 0 < length m.pts
      → bbox_of fpu m.bound ≡ some box
      → ((i : ℕ) → i < j → cell_fits fpu box (cell_after i cell_m) ≡ false)
      → cell_fits fpu box (cell_after j cell_m) ≡ true
      → Passes k (first_centre fpu box.n0 (cell_after j cell_m)) box.n1 (cell_after j cell_m)
      → Passes l (first_centre fpu box.e0 (cell_after j cell_m)) box.e1 (cell_after j cell_m)
      → j + k + l < fuel
      → let g = cell_after j cell_m in
        (ns : List F64) × (es : List F64) × (steps fpu fuel (first_centre fpu box.n0 g) box.n1 g
          ≡ some ns)
        × (steps fpu fuel (first_centre fpu box.e0 g) box.e1 g ≡ some es)
        × (fieldmap_compute fpu fuel m a b c cell_m
            ≡ some (
                result_of fpu
                  (fieldmap_area fpu m)
                  (sum_samples m a b c (fpu.f64_mul g g) (grid_samples m es ns) no_totals)))
  unfolding fieldmap_compute
  fieldmap_compute-samples fuel j k l m a b c cell_m box h3 h0 hb small fit pn pe enough =
      let g = cell_after j cell_m in
      let (ns, en, _) = steps-Passes fuel k (first_centre fpu box.n0 g) box.n1 g (omega arith) pn in
      let (es, ee, _) = steps-Passes fuel l (first_centre fpu box.e0 g) box.e1 g (omega arith) pe in
      let wide : (ltb (length m.bound) 3 || length m.pts == 0) ≡ false = ground arith in
      (
        ns,
        es,
        en,
        ee,
        rw
            (
              wide,
              hb,
              enlarge-enlarged fuel j box (given_cell cell_m) (omega arith) small fit,
              en,
              ee,
            )
            (ap (λ (t : Totals). some (result_of fpu (fieldmap_area fpu m) t))
              (grid_loop-samples m a b c (fpu.f64_mul g g) es ns no_totals)),
      )
