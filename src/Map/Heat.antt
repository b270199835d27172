-- ===== src/Map/Heat.antt =====
-- main/map_view.c: the whole map, from the field to the buffer. `%+.0f` of the readout is a
-- parameter, as is the arithmetic.
use tab5_client.Str.{dec}
use tab5_client.Prelude.Int.{◌+ℤ◌, negsuc, pos, ℤ, ◌-ℤ◌}
use tab5_client.Map.{
  ◌>>=◌, Buf, draw_disc, draw_line, fill_rect, fits_int, map_h, map_w, neg_ℤ, rgb565,
}
use tab5_client.Leveler.{Leveler, leveler_current_en, leveler_get_plane}
use tab5_client.Leveler.Status.{LevelerStatus, leveler_get}
use tab5_client.Gnss.{GnssSnapshot}
use tab5_client.Float.{F64, Fpu}
use tab5_client.Fieldmap.Surface.{fieldmap_surface_at}
use tab5_client.Prelude.{
  ℕ, ◌+◌, ◌-◌, ◌*◌, ◌/◌, ◌%◌, ◌^◌, bit_or, Bool, not, ◌&&◌, Option, none, some, List, [], ◌∷◌, ◌++◌,
  ltb, if◌then◌else◌, length, take, Bytes, codes,
}
use tab5_client.Fieldmap.{fieldmap_bbox, Fieldmap, Vtx, fieldmap_inside, Box}
use tab5_client.Fieldmap.Volume.{steps, f64_0_5}

abbrev pub margin : ℕ
margin = 16

abbrev deadband_m : F64
deadband_m = 0x3F9EB851EB851EB8

-- 0.30
abbrev pub f64_0_3 : F64
f64_0_3 = 0x3FD3333333333333

abbrev f64_1 : F64
f64_1 = 0x3FF0000000000000

abbrev pub f64_1e_6 : F64
f64_1e_6 = 0x3EB0C6F7A0B5ED8D

abbrev pub f64_45 : F64
f64_45 = 0x4046800000000000

abbrev pub f64_2 : F64
f64_2 = 0x4000000000000000

-- An int as `uint32_t`.
abbrev u32_of_int : ℤ → ℕ
u32_of_int (pos n) = n % 2 ^ 32
u32_of_int (negsuc n) = 2 ^ 32 - 1 - n % 2 ^ 32

-- `r << 16 | g << 8 | b`.
abbrev colour24 : ℤ → ℤ → ℤ → ℕ
colour24 r g b =
    bit_or (bit_or (u32_of_int r * 2 ^ 16 % 2 ^ 32) (u32_of_int g * 2 ^ 8 % 2 ^ 32)) (u32_of_int b)

-- A conversion to an int, which C defines where the value fits.
abbrev pub as_int : ℤ → Option ℤ
as_int z = if fits_int z then some z else none

-- `v / 2` of an int.
abbrev pub half_ℤ : ℤ → ℤ
half_ℤ (pos n) = pos (n / 2)
half_ℤ (negsuc n) = neg_ℤ (pos ((n + 1) / 2))

-- The canvas, if its buffer was allocated, and the text above it.
pub record MapView : Type 0 where
  pub has_buf : Bool
  pub buf : Buf
  pub label : Bytes

abbrev pub tractor : ℕ
tractor = rgb565 0xFF33CC

abbrev pub tractor_radius : ℤ
tractor_radius = pos 9

-- The map's place on the canvas.
pub record Frame : Type 0 where
  pub emin : F64
  pub nmax : F64
  pub sc : F64
  pub ox : F64
  pub oy : F64

-- A square with so many pixels on each side of its middle.
abbrev pub square_fits : ℤ → ℤ → ℤ → Bool
square_fits half x y =
    fits_int (x -ℤ half) && fits_int (y -ℤ half) && fits_int (x +ℤ half) && fits_int (y +ℤ half)

abbrev pub paint_square : ℤ → Buf → ℤ → ℤ → ℕ → Option Buf
paint_square half b x y c =
    if square_fits half x y
    then fill_rect b (x -ℤ half) (y -ℤ half) (x +ℤ half) (y +ℤ half) c
    else none

module _ (fpu : Fpu) where
  unfoldable pub heat : F64 → ℕ
  heat dev =
      let up = fpu.f64_min (fpu.f64_div dev f64_0_3) f64_1 in
      let down = fpu.f64_min (fpu.f64_div (fpu.f64_neg dev) f64_0_3) f64_1 in
      let part = λ (k : ℕ) (t : F64). fpu.int_of_f64 (fpu.f64_mul (fpu.f64_of_int (pos k)) t) in
      if fpu.f64_lt deadband_m dev
      then rgb565 (colour24 (pos 0xC8 +ℤ part 0x37 up) (pos 0x60 -ℤ part 0x30 up) (pos 0x28))
      else if fpu.f64_lt dev (fpu.f64_neg deadband_m)
      then rgb565 (colour24 (pos 0x2A) (pos 0x78 +ℤ part 0x30 down) (pos 0xB4 +ℤ part 0x40 down))
      else rgb565 0x2E9E4A

  -- `w - 2.0 * MARGIN`.
  abbrev inside_margin : ℕ → F64
  inside_margin w =
      fpu.f64_sub (fpu.f64_of_int (pos w)) (fpu.f64_mul f64_2 (fpu.f64_of_int (pos margin)))

  abbrev pub span : F64 → F64 → F64
  span low high = let d = fpu.f64_sub high low in if fpu.f64_lt d f64_1e_6 then f64_1 else d

  -- Where the map starts in a direction.
  abbrev offset : ℕ → F64 → F64 → F64
  offset w extent sc =
      fpu.f64_add (fpu.f64_of_int (pos margin))
        (fpu.f64_div (fpu.f64_sub (inside_margin w) (fpu.f64_mul extent sc)) f64_2)

  abbrev pub frame_of : Box → Frame
  frame_of b =
      let espan = span b.e0 b.e1 in
      let nspan = span b.n0 b.n1 in
      let sc =
        fpu.f64_min (fpu.f64_div (inside_margin map_w) espan)
          (fpu.f64_div (inside_margin map_h) nspan) in
      record {
        emin = b.e0;
        nmax = b.n1;
        sc = sc;
        ox = offset map_w espan sc;
        oy = offset map_h nspan sc;
      }

  -- `lround` of the place, before the conversion to an int.
  abbrev pub px_round : Frame → F64 → ℤ
  px_round f e = fpu.f64_lround (fpu.f64_add f.ox (fpu.f64_mul (fpu.f64_sub e f.emin) f.sc))

  abbrev pub py_round : Frame → F64 → ℤ
  py_round f n = fpu.f64_lround (fpu.f64_add f.oy (fpu.f64_mul (fpu.f64_sub f.nmax n) f.sc))

  abbrev pub px_of : Frame → F64 → Option ℤ
  px_of f e = as_int (px_round f e)

  abbrev pub py_of : Frame → F64 → Option ℤ
  py_of f n = as_int (py_round f n)

  abbrev pub cell_of : Box → F64
  cell_of b =
      let cell = fpu.f64_div (fpu.f64_max (span b.e0 b.e1) (span b.n0 b.n1)) f64_45 in
      if fpu.f64_lt cell f64_0_3 then f64_0_3 else cell

  -- `ceil(cell * sc)`, before the conversion to an int.
  abbrev pub cell_pixels : Box → ℤ
  cell_pixels box = fpu.int_of_f64 (fpu.f64_ceil (fpu.f64_mul (cell_of box) (frame_of box).sc))

  abbrev pub cell_colour : Fieldmap → Option (F64 × F64 × F64) → F64 → F64 → ℕ
  cell_colour m none e n = rgb565 0x445566
  cell_colour m (some (a, b, c)) e n = heat (
      fpu.f64_sub (fieldmap_surface_at fpu m e n)
        (fpu.f64_add (fpu.f64_add (fpu.f64_mul a e) (fpu.f64_mul b n)) c))

  module _ (m : Fieldmap) (plane : Option (F64 × F64 × F64)) (f : Frame) (half : ℤ) where
    abbrev pub paint_cell : Buf → F64 → F64 → Option Buf
    paint_cell b e n =
        if fieldmap_inside fpu m e n
        then (px_of f e >>= λ x.
            py_of f n >>= λ y. paint_square half b x y (cell_colour m plane e n))
        else some b

    unfoldable pub paint_row : List F64 → F64 → Buf → Option Buf
    paint_row [] n b = some b
    paint_row (e ∷ es) n b = paint_cell b e n >>= λ b'. paint_row es n b'

    unfoldable pub paint_rows : List F64 → List F64 → Buf → Option Buf
    paint_rows es [] b = some b
    paint_rows es (n ∷ ns) b = paint_row es n b >>= λ b'. paint_rows es ns b'

  abbrev pub edge : Frame → Vtx → Vtx → Buf → Option Buf
  edge f u v b = px_of f u.e >>= λ x0. py_of f u.n >>= λ y0.
      px_of f v.e >>= λ x1. py_of f v.n >>= λ y1. draw_line b x0 y0 x1 y1 (rgb565 0xFFE066)

  -- The edges from a vertex on, the last one back to the first vertex.
  unfoldable pub draw_edges : Frame → Vtx → List Vtx → Buf → Option Buf
  draw_edges f first [] b = some b
  draw_edges f first (v ∷ []) b = edge f v first b
  draw_edges f first (v ∷ u ∷ vs) b = edge f v u b >>= λ b'. draw_edges f first (u ∷ vs) b'

  abbrev pub boundary : Frame → List Vtx → Buf → Option Buf
  boundary f [] b = some b
  boundary f (v ∷ vs) b = draw_edges f v (v ∷ vs) b

  abbrev pub draw_tractor : Frame → Option (F64 × F64) → Buf → Option Buf
  draw_tractor f none b = some b
  draw_tractor f (some (e, n)) b =
      px_of f e >>= λ x. py_of f n >>= λ y. draw_disc b x y tractor_radius tractor

  abbrev pub first_of : F64 → F64 → F64
  first_of low cell = fpu.f64_add low (fpu.f64_mul cell f64_0_5)

  -- The cells' centres in a direction.
  abbrev pub centres : ℕ → F64 → F64 → F64 → Option (List F64)
  centres fuel low high cell = steps fpu fuel (fpu.f64_add low (fpu.f64_mul cell f64_0_5)) high cell

  abbrev pub paint_all :
      Leveler → GnssSnapshot → Box → Option (List F64) → Option (List F64) → Buf → Option Buf
  paint_all l g box none es b = none
  paint_all l g box (some ns) none b = none
  paint_all l g box (some ns) (some es) b =
      let f = frame_of box in
      (as_int (cell_pixels box) >>= λ px. as_int (px +ℤ pos 1) >>= λ cellpx.
      paint_rows l.field (leveler_get_plane fpu l) f (half_ℤ cellpx) es ns b)
      >>= (λ b1. boundary f l.field.bound b1)
      >>= (λ b2. draw_tractor f (leveler_current_en fpu l g) b2)

  module _ (plus_fmt : ℕ → F64 → Bytes) where
    -- The readout, in its buffer of 112.
    abbrev pub readout : LevelerStatus → Bytes
    readout st = take 111 (
        if st.vol_valid
        then codes "cut "
          ++ (fpu.f64_fmt 0 st.cut_m3
              ++ (codes "  fill "
                  ++ (fpu.f64_fmt 0 st.fill_m3
                      ++ (codes "  net "
                          ++ (plus_fmt 0 st.net_m3
                              ++ (codes " m3   " ++ (fpu.f64_fmt 0 st.area_m2 ++ codes " m2")))))))
        else codes "area "
          ++ (fpu.f64_fmt 0 st.area_m2 ++ (codes " m2   pts " ++ dec (pos st.survey_points))))

    abbrev pub finished : MapView → LevelerStatus → Option Buf → Option MapView
    finished v st none = none
    finished v st (some b) = some (record v { buf = b; label = readout st })

    abbrev pub over_field :
        ℕ → Leveler → GnssSnapshot → LevelerStatus → MapView → Option Box → Option MapView
    over_field fuel l g st v none = some (record v { label = codes "no field - record perim" })
    over_field fuel l g st v (some box) =
        if ltb (length l.field.bound) 3
        then some (record v { label = codes "no field - record perim" })
        else finished v st (
            paint_all l g box (centres fuel box.n0 box.n1 (cell_of box))
              (centres fuel box.e0 box.e1 (cell_of box)) v.buf)

    -- With the snapshots that the position and the status take, and fuel for the cells' loops.
    unfoldable pub map_view_update :
        ℕ → Leveler → GnssSnapshot → GnssSnapshot → MapView → Option MapView
    map_view_update fuel l g gs v =
        let blank_view = record v { buf = λ i. rgb565 0x0A1A2A } in
        if not v.has_buf
        then some v
        else over_field fuel l g (leveler_get fpu l gs) blank_view (fieldmap_bbox fpu l.field)
