-- ===== src/Tests/Field.antt =====
-- main/map_view.c on the small square, with whole numbers in which a 45th is a half.
use tab5_client.Tests.Volume.{square, square_box}
use tab5_client.Tests.Sbf.{toy}
use tab5_client.Tests.Leveler.{nowhere}
use tab5_client.Map.Fits.{Placed, map_view_update-Placed}
use tab5_client.Leveler.{Leveler, current_fix, leveler_boot, leveler_current_en, leveler_init}
use tab5_client.Float.{Fpu}
use tab5_client.Cutfill.{cutfill_geo_init, cutfill_project}
use tab5_client.Sbf.Feed.{sbf_parser_init}
use tab5_client.Map.Visible.{IsInSight}
use tab5_client.Prelude.{
  ℕ, zero, suc, ◌*◌, ◌/◌, ◌<◌, ◌≡◌, refl, true, ◌||◌, some, [], ◌∷◌, arith, ltb, ◌==◌,
  if◌then◌else◌,
}
use tab5_client.Map.Heat.{
  centres, MapView, cell_of, frame_of, map_view_update, f64_45, f64_2, f64_0_3, f64_1e_6,
}
use tab5_client.Fieldmap.Volume.{steps, f64_0_5}
use tab5_client.Fieldmap.{bbox_loop, fieldmap_bbox}

abbrev mapping : Fpu
mapping = record toy {
  f64_mul = λ a b. if b == f64_0_5 then a / 2 else if a == f64_2 then 2 * b else a * b;
  f64_div = λ a b. if b == f64_45 || b == f64_2 then a / 2 else a / b;
  f64_lt = λ a b. if b == f64_0_3 || b == f64_1e_6 then a == 0 else ltb a b;
}

abbrev on_square : Leveler
on_square = record (leveler_init true true leveler_boot) {
  geo = cutfill_geo_init mapping 0 0 0;
  field = square;
}

abbrev canvas : MapView
canvas = record { has_buf = true; buf = λ i. 0; label = [] }

centres_run : centres mapping 9 0 4 (cell_of mapping square_box) ≡ some (1 ∷ 3 ∷ [])
unfolding steps
centres_run = refl

-- A statement on the numbers below 2.
below_2 : (P : ℕ → Type 0) → P 0 → P 1 → (t : ℕ) → t < 2 → P t
below_2 P p q zero h = p
below_2 P p q (suc zero) h = q
below_2 P p q (suc (suc t)) h = absurd (omega (arith, h))

tractor-IsInSight :
    IsInSight mapping (frame_of mapping square_box) (leveler_current_en mapping on_square nowhere)
unfolding leveler_current_en current_fix sbf_parser_init cutfill_geo_init cutfill_project
tractor-IsInSight = ((omega arith, omega arith), (omega arith, omega arith))

map_view_update-Placed_example :
    (v' : MapView) × (map_view_update mapping (λ n v. []) 9 on_square nowhere nowhere canvas
      ≡ some v')
    × Placed mapping
        (frame_of mapping square_box)
        (leveler_current_en mapping on_square nowhere)
        v'.buf
        10
        20
unfolding fieldmap_bbox bbox_loop
map_view_update-Placed_example =
    map_view_update-Placed mapping (λ n v. []) 9 2 2 on_square nowhere nowhere canvas square_box 10
      20 refl (omega arith) refl refl refl (omega arith) (omega arith, omega arith)
      (below_2 _ (omega arith, omega arith) (omega arith, omega arith))
      (below_2 _ (omega arith, omega arith) (omega arith, omega arith)) (ground arith)
      tractor-IsInSight (omega arith) (omega arith)
