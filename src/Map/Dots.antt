-- ===== src/Map/Dots.antt =====
-- main/map_view.c: what `put_px` and the thick dot of `draw_line` paint.
use tab5_client.Prelude.{
  ℕ, ◌<◌, ◌≡◌, refl, ◌∙◌, inl, inr, Bool, ◌&&◌, ◌||◌, some, arith, ltb, if◌then◌else◌, Bool-cases,
}
use tab5_client.Prelude.Int.{ℤ, pos, negsuc, ◌+ℤ◌}
use tab5_client.Map.{Buf, map_w, map_h, update, eq_ℤ, put_px, put_dot}
use tab5_client.Map.Rect.{px, store_px}

-- Whether two coordinates name a pixel of the canvas.
abbrev pub on : ℤ → ℤ → ℕ → ℕ → Bool
on x y i j = eq_ℤ x (pos i) && eq_ℤ y (pos j)

module _ (b : Buf) (c i j : ℕ) (hi : i < map_w) (hj : j < map_h) where
  put_px_pos :
      (x y : ℕ)
      → (b' : Buf) × (put_px b (pos x) (pos y) c ≡ some b')
        × (b' (px i j) ≡ (if on (pos x) (pos y) i j then c else b (px i j)))
  unfolding put_px
  put_px_pos x y = elim (Bool-cases (ltb x map_w && ltb y map_h)) [
    | inl h ↦
        (update b (px x y) c, rw h (store_px b x y c (ground arith) (ground arith)), ground arith)
    | inr h ↦ (b, rw h refl, ground arith)
  ]

  -- Only a pixel of the canvas is written, the one asked for.
  pub put_px-on :
      (x y : ℤ)
      → (b' : Buf) × (put_px b x y c ≡ some b')
        × (b' (px i j) ≡ (if on x y i j then c else b (px i j)))
  unfolding put_px
  put_px-on (pos x) (pos y) = put_px_pos x y
  put_px-on (pos x) (negsuc y) = (b, ground arith, ground arith)
  put_px-on (negsuc x) (pos y) = (b, ground arith, ground arith)
  put_px-on (negsuc x) (negsuc y) = (b, ground arith, ground arith)

abbrev pub dot : ℤ → ℤ → ℕ → ℕ → Bool
dot x y i j = on x y i j || on (x +ℤ pos 1) y i j || on x (y +ℤ pos 1) i j

pub put_dot-dot :
    (b : Buf) (c i j : ℕ)
    → i < map_w
    → j < map_h
    → (x y : ℤ)
    → (b' : Buf) × (put_dot b x y c ≡ some b')
      × (b' (px i j) ≡ (if dot x y i j then c else b (px i j)))
unfolding put_dot
put_dot-dot b c i j hi hj x y =
    let (b1, e1, v1) = put_px-on b c i j hi hj x y in
    let (b2, e2, v2) = put_px-on b1 c i j hi hj (x +ℤ pos 1) y in
    let (b3, e3, v3) = put_px-on b2 c i j hi hj x (y +ℤ pos 1) in
    (b3, rw (e1, e2) e3, v3 ∙ rw (v2, v1) (ground arith))
