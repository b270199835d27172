-- ===== src/Tests/Volume.antt =====
-- main/fieldmap.c on a small square, with arithmetic on small numbers.
use tab5_client.Tests.Sbf.{toy}
use tab5_client.Float.{F64, Fpu}
use tab5_client.Fieldmap.Grid.{cell_after, fieldmap_compute-samples, grid_samples, sum_samples}
use tab5_client.Prelude.{◌*◌, ◌/◌, ◌≡◌, refl, some, List, [], ◌∷◌, arith, ◌==◌, if◌then◌else◌}
use tab5_client.Fieldmap.{bbox_loop, fieldmap_area, fieldmap_boot, Fieldmap, Box}
use tab5_client.Fieldmap.Volume.{
  fieldmap_compute, f64_0_5, no_totals, result_of, first_centre, steps,
}

-- Whole numbers, whose half is rounded down.
abbrev halving : Fpu
halving = record toy { f64_mul = λ a b. if b == f64_0_5 then a / 2 else a * b }

abbrev pub square : Fieldmap
square = record fieldmap_boot {
  bound =
      record { e = 0; n = 0 }
      ∷ record { e = 4; n = 0 }
      ∷ record { e = 4; n = 4 }
      ∷ record { e = 0; n = 4 }
      ∷ [];
  pts = record { e = 1; n = 1; z = 3 } ∷ [];
}

abbrev pub square_box : Box
square_box = record { e0 = 0; e1 = 4; n0 = 0; n1 = 4 }

steps_run : steps halving 9 (first_centre halving 0 2) 4 2 ≡ some (1 ∷ 3 ∷ [])
unfolding steps
steps_run = refl

fieldmap_compute-samples_example :
    let g = cell_after halving 0 2 in
    (ns : List F64) × (es : List F64) × (steps halving 9
        (first_centre halving square_box.n0 g)
        square_box.n1
        g
      ≡ some ns)
    × (steps halving 9 (first_centre halving square_box.e0 g) square_box.e1 g ≡ some es)
    × (fieldmap_compute halving 9 square 0 0 0 2
        ≡ some (
            result_of halving (fieldmap_area halving square) (
              sum_samples halving square 0 0 0
                (halving.f64_mul g g)
                (grid_samples halving square es ns)
                no_totals)))
unfolding bbox_loop
fieldmap_compute-samples_example =
    fieldmap_compute-samples halving 9 0 2 2 square 0 0 0 2 square_box (omega arith) (omega arith)
      refl (λ i h. absurd (omega arith)) refl refl refl (omega arith)
