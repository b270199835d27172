-- ===== src/Map/Fits.antt =====
-- main/map_view.c: that the map is drawn to the end, and within its buffer.
use tab5_client.Prelude.Int.{◌+ℤ◌, pos, ℤ, ◌-ℤ◌}
use tab5_client.Map.Rect.{fill_rect-between, px}
use tab5_client.Map.Lines.{draw_line-Painted}
use tab5_client.Map.Heat.{
  boundary, Frame, MapView, cell_colour, cell_of, draw_edges, draw_tractor, edge, first_of,
  frame_of, half_ℤ, px_round, py_round, paint_square, cell_pixels, map_view_update, paint_all,
  paint_cell, paint_row, paint_rows, readout, tractor, tractor_radius,
}
use tab5_client.Map.Disc.{draw_disc-in_disc, in_disc}
use tab5_client.Map.{◌>>=◌, Buf, map_h, map_w, rgb565}
use tab5_client.Leveler.{Leveler, leveler_current_en, leveler_get_plane}
use tab5_client.Leveler.Status.{leveler_get}
use tab5_client.Gnss.{GnssSnapshot}
use tab5_client.Float.{F64, Fpu}
use tab5_client.Prelude.{
  ℕ, ◌+◌, ◌≤◌, ◌<◌, ◌≡◌, refl, ◌∙◌, ◌⊎◌, inl, inr, true, false, Option, none, some, List, [], ◌∷◌,
  arith, ltb, Bool-cases, if-both, length, Bytes,
}
use tab5_client.Fieldmap.{Vtx, Fieldmap, fieldmap_inside, fieldmap_bbox, Box}
use tab5_client.Fieldmap.Grid.{Passes, advance}
use tab5_client.Map.Ints.{IsNear, Within}
use tab5_client.Map.Visible.{
  IsNear-as_int, IsNear-as_int_next, IsNear-half, IsNear-square_fits, IsNear-disc_fits, AllOf,
  steps-AllOf, IsVisible, AllVisible, IsInSight,
}

-- A drawing that comes back.
abbrev Ends : Option Buf → Type 0
Ends o = (b : Buf) × (o ≡ some b)

then_Ends :
    (o : Option Buf) (f : Buf → Option Buf) → Ends o → ((b : Buf) → Ends (f b)) → Ends (o >>= f)
then_Ends o f (b, e) h = rw e (h b)

-- The tractor's pixels, if its place is known.
abbrev pub Placed : Fpu → Frame → Option (F64 × F64) → Buf → ℕ → ℕ → Type 0
Placed fpu f none b i j = Unit {0}
Placed fpu f (some (e, n)) b i j =
    (in_disc (pos i -ℤ px_round fpu f e) (pos j -ℤ py_round fpu f n) tractor_radius ≡ false)
    ⊎ (b (px i j) ≡ tractor)

module _ (fpu : Fpu) where
  paint_square-Ends :
      (half : ℤ) (b : Buf) (x y : ℤ) (c : ℕ)
      → Within 67_108_865 half
      → IsNear x
      → IsNear y
      → Ends (paint_square half b x y c)
  paint_square-Ends half b x y c w h k =
      let (b', e, _) =
        fill_rect-between b (x -ℤ half) (y -ℤ half) (x +ℤ half) (y +ℤ half) c 0 0 (omega arith)
          (omega arith) in
      (b', rw (IsNear-square_fits half x y w h k) e)

  module _ (m : Fieldmap) (p : Option (F64 × F64 × F64)) (f : Frame) (half : ℤ)
      (w : Within 67_108_865 half) where
    paint_cell-Ends :
        (b : Buf) (e n : F64)
        → IsNear (px_round fpu f e)
        → IsNear (py_round fpu f n)
        → Ends (paint_cell fpu m p f half b e n)
    paint_cell-Ends b e n h k =
        let x = px_round fpu f e in
        let y = py_round fpu f n in
        if-both Ends (fieldmap_inside fpu m e n)
          (rw (IsNear-as_int x h, IsNear-as_int y k)
            (paint_square-Ends half b x y (cell_colour fpu m p e n) w h k))
          (b, refl)

    paint_row-Ends :
        (es : List F64) (n : F64) (b : Buf)
        → AllOf (λ e. IsNear (px_round fpu f e)) es
        → IsNear (py_round fpu f n)
        → Ends (paint_row fpu m p f half es n b)
    unfolding paint_row
    paint_row-Ends [] n b hs k = (b, refl)
    paint_row-Ends (e ∷ es) n b (h, hs) k =
        then_Ends (paint_cell fpu m p f half b e n) _ (paint_cell-Ends b e n h k)
          (λ b'. paint_row-Ends es n b' hs k)

    paint_rows-Ends :
        (es ns : List F64) (b : Buf)
        → AllOf (λ e. IsNear (px_round fpu f e)) es
        → AllOf (λ n. IsNear (py_round fpu f n)) ns
        → Ends (paint_rows fpu m p f half es ns b)
    unfolding paint_rows
    paint_rows-Ends es [] b hs ks = (b, refl)
    paint_rows-Ends es (n ∷ ns) b hs (k, ks) =
        then_Ends (paint_row fpu m p f half es n b) _ (paint_row-Ends es n b hs k)
          (λ b'. paint_rows-Ends es ns b' hs ks)

  edge-Ends :
      (f : Frame) (u v : Vtx) (b : Buf)
      → IsVisible fpu f u.e u.n
      → IsVisible fpu f v.e v.n
      → Ends (edge fpu f u v b)
  edge-Ends f u v b (h0, k0) (h1, k1) =
      let x0 = px_round fpu f u.e in
      let y0 = py_round fpu f u.n in
      let x1 = px_round fpu f v.e in
      let y1 = py_round fpu f v.n in
      let (b', h, _) =
        draw_line-Painted b x0 y0 x1 y1 (rgb565 0xFFE066) 0 0 h0 k0 h1 k1 (omega arith)
          (omega arith) in
      (
        b',
        rw (IsNear-as_int x0 h0, IsNear-as_int y0 k0, IsNear-as_int x1 h1, IsNear-as_int y1 k1) h,
      )

  draw_edges-Ends :
      (f : Frame) (first : Vtx) (vs : List Vtx) (b : Buf)
      → IsVisible fpu f first.e first.n
      → AllVisible fpu f vs
      → Ends (draw_edges fpu f first vs b)
  unfolding draw_edges
  draw_edges-Ends f first [] b h hs = (b, refl)
  draw_edges-Ends f first (v ∷ []) b h (k, hs) = edge-Ends f v first b k h
  draw_edges-Ends f first (v ∷ u ∷ vs) b h (k, hs) =
      then_Ends (edge fpu f v u b) _ (edge-Ends f v u b k hs.0)
        (λ b'. draw_edges-Ends f first (u ∷ vs) b' h hs)

  boundary-Ends :
      (f : Frame) (vs : List Vtx) (b : Buf) → AllVisible fpu f vs → Ends (boundary fpu f vs b)
  boundary-Ends f [] b h = (b, refl)
  boundary-Ends f (v ∷ vs) b h = draw_edges-Ends f v (v ∷ vs) b h.0 h

  draw_tractor-Placed :
      (f : Frame) (o : Option (F64 × F64)) (b : Buf) (i j : ℕ)
      → IsInSight fpu f o
      → i < map_w
      → j < map_h
      → (b' : Buf) × (draw_tractor fpu f o b ≡ some b') × Placed fpu f o b' i j
  draw_tractor-Placed f none b i j s hi hj = (b, refl, tt)
  draw_tractor-Placed f (some (e, n)) b i j (hx, hy) hi hj =
      let x = px_round fpu f e in
      let y = py_round fpu f n in
      let (b', h, v) = draw_disc-in_disc b x y 9 tractor i j (IsNear-disc_fits x y hx hy) hi hj in
      (
        b',
        rw (IsNear-as_int x hx, IsNear-as_int y hy) h,
        elim (Bool-cases (in_disc (pos i -ℤ x) (pos j -ℤ y) (pos 9))) [
          | inl t ↦ inr (v ∙ rw t refl)
          | inr t ↦ inl t
        ],
      )

  paint_all-Placed :
      (l : Leveler) (g : GnssSnapshot) (box : Box) (ns es : List F64) (b : Buf) (i j : ℕ)
      → IsNear (cell_pixels fpu box)
      → AllOf (λ e. IsNear (px_round fpu (frame_of fpu box) e)) es
      → AllOf (λ n. IsNear (py_round fpu (frame_of fpu box) n)) ns
      → AllVisible fpu (frame_of fpu box) l.field.bound
      → IsInSight fpu (frame_of fpu box) (leveler_current_en fpu l g)
      → i < map_w
      → j < map_h
      → (b' : Buf) × (paint_all fpu l g box (some ns) (some es) b ≡ some b')
        × Placed fpu (frame_of fpu box) (leveler_current_en fpu l g) b' i j
  paint_all-Placed l g box ns es b i j hc he hn hb ht hi hj =
      let f = frame_of fpu box in
      let c = cell_pixels fpu box in
      let (b1, e1) =
        paint_rows-Ends l.field (leveler_get_plane fpu l) f (half_ℤ (c +ℤ pos 1)) (IsNear-half c hc)
          es ns b he hn in
      let (b2, e2) = boundary-Ends f l.field.bound b1 hb in
      let (b3, e3, v) = draw_tractor-Placed f (leveler_current_en fpu l g) b2 i j ht hi hj in
      (b3, rw (IsNear-as_int c hc, IsNear-as_int_next c hc, e1, e2) e3, v)

  -- With a buffer, a boundary of at least 3 vertices, more fuel than the steps that lead past the
  -- box, and a cell's width, the cells' centres, the vertices and the tractor, if its place is
  -- known, within 2^26 pixels of the canvas' origin, the map is drawn to the end, with no
  -- conversion or sum of its coordinates that leaves an int and no write outside the buffer; and
  -- if the tractor's place is known, every pixel of the canvas within 9 of it has its colour.
  pub map_view_update-Placed :
      (plus_fmt : ℕ → F64 → Bytes) (fuel k m : ℕ) (l : Leveler) (g gs : GnssSnapshot) (v : MapView)
      (box : Box) (i j : ℕ)
      → v.has_buf ≡ true
      → 3 ≤ length l.field.bound
      → fieldmap_bbox fpu l.field ≡ some box
      → Passes fpu k (first_of fpu box.n0 (cell_of fpu box)) box.n1 (cell_of fpu box)
      → Passes fpu m (first_of fpu box.e0 (cell_of fpu box)) box.e1 (cell_of fpu box)
      → k + m < fuel
      → IsNear (cell_pixels fpu box)
      → ((t : ℕ)
          → t < k
          → IsNear (
              py_round fpu
                (frame_of fpu box)
                (advance fpu t (first_of fpu box.n0 (cell_of fpu box)) (cell_of fpu box))))
      → ((t : ℕ)
          → t < m
          → IsNear (
              px_round fpu
                (frame_of fpu box)
                (advance fpu t (first_of fpu box.e0 (cell_of fpu box)) (cell_of fpu box))))
      → AllVisible fpu (frame_of fpu box) l.field.bound
      → IsInSight fpu (frame_of fpu box) (leveler_current_en fpu l g)
      → i < map_w
      → j < map_h
      → (v' : MapView) × (map_view_update fpu plus_fmt fuel l g gs v ≡ some v')
        × Placed fpu (frame_of fpu box) (leveler_current_en fpu l g) v'.buf i j
  unfolding map_view_update
  map_view_update-Placed plus_fmt fuel k m l g gs v box i j hv h3 hb pn pe enough hc near_n near_e
        near_b near_t hi hj =
      let cell = cell_of fpu box in
      let f = frame_of fpu box in
      let (ns, en, hn) =
        steps-AllOf fpu (λ n. IsNear (py_round fpu f n)) fuel k (first_of fpu box.n0 cell) box.n1
          cell (omega arith) pn near_n in
      let (es, ee, he) =
        steps-AllOf fpu (λ e. IsNear (px_round fpu f e)) fuel m (first_of fpu box.e0 cell) box.e1
          cell (omega arith) pe near_e in
      let (b', e, w) =
        paint_all-Placed l g box ns es (λ p. rgb565 0x0A1A2A) i j hc he hn near_b near_t hi hj in
      let wide : ltb (length l.field.bound) 3 ≡ false = ground arith in
      (
        record v { buf = b'; label = readout fpu plus_fmt (leveler_get fpu l gs) },
        rw (hv, hb, wide, en, ee, e) refl,
        w,
      )
