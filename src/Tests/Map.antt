-- ===== src/Tests/Map.antt =====
-- main/map_view.c on an empty canvas.
use tab5_client.Map.Rect.{between, fill_rect-between, px}
use tab5_client.Map.Lines.{Painted, draw_line-Painted}
use tab5_client.Map.{Buf, draw_line, fill_rect, line_loop, line_of, put_dot, put_px, store}
use tab5_client.Prelude.{ℕ, ◌≡◌, refl, ◌&&◌, Option, none, some, arith, if◌then◌else◌}
use tab5_client.Prelude.Int.{◌+ℤ◌, ◌*ℤ◌, ◌-ℤ◌, pos, negsuc}

abbrev empty_canvas : Buf
empty_canvas = λ i. 0

pixel_of : Option Buf → ℕ → ℕ → ℕ
pixel_of none x y = 9999
pixel_of (some b) x y = b (px x y)

line_run :
    let r = draw_line empty_canvas (pos 1) (pos 1) (pos 4) (pos 2) 9 in
    (pixel_of r 2 1 ≡ 9) × (pixel_of r 5 2 ≡ 9) × (pixel_of r 3 5 ≡ 0)
unfolding pixel_of draw_line line_of line_loop put_dot put_px store ◌-ℤ◌ ◌+ℤ◌ ◌*ℤ◌
line_run = (refl, refl, refl)

fill_rect-between_example :
    (b' : Buf) × (fill_rect empty_canvas (pos 5) (negsuc 2) (pos 1) (pos 3) 7 ≡ some b')
    × (b' (px 2 1) ≡ (
        if between (pos 5) (pos 1) 2 && between (negsuc 2) (pos 3) 1
        then 7
        else empty_canvas (px 2 1)))
fill_rect-between_example =
    fill_rect-between empty_canvas (pos 5) (negsuc 2) (pos 1) (pos 3) 7 2 1 (omega arith)
      (omega arith)

draw_line-Painted_example :
    (b' : Buf) × (draw_line empty_canvas (pos 1) (negsuc 0) (pos 4) (pos 2) 9 ≡ some b')
    × Painted empty_canvas b' (pos 1) (negsuc 0) (pos 4) (pos 2) 9 3 1
draw_line-Painted_example =
    draw_line-Painted empty_canvas (pos 1) (negsuc 0) (pos 4) (pos 2) 9 3 1
      (omega arith, omega arith) (omega arith, omega arith) (omega arith, omega arith)
      (omega arith, omega arith) (omega arith) (omega arith)

-- From one end of the ints to the other the distance is none.
far_run : draw_line empty_canvas (pos 0x7FFFFFFF) (pos 0) (negsuc 0) (pos 0) 9 ≡ none
unfolding draw_line line_of ◌-ℤ◌
far_run = refl
