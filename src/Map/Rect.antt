-- ===== src/Map/Rect.antt =====
-- main/map_view.c: what `fill_rect` paints.
use tab5_client.Prelude.{
  ℕ, zero, suc, ◌+◌, ◌-◌, ◌*◌, ◌≤◌, ◌<◌, min, max, ◌≡◌, refl, ◌∙◌, Bool, ◌&&◌, ◌||◌, some, arith,
  ltb, leb, ◌==◌, if◌then◌else◌,
}
use tab5_client.Prelude.Int.{ℤ, pos, negsuc, pos_part, ◌+ℤ◌, ◌-ℤ◌, ◌*ℤ◌, leb_ℤ}
use tab5_client.Map.{
  Buf, map_w, map_h, update, store, index, fill_row, fill_rows, fill_rect, rounds, ordered,
  clip_low, clip_high,
}

-- The pixel of column `x` and row `y`.
abbrev pub px : ℕ → ℕ → ℕ
px x y = y * map_w + x

pub index_pos : (x y : ℕ) → index (pos x) (pos y) ≡ pos (px x y)
unfolding ◌+ℤ◌ ◌*ℤ◌
index_pos x y = ground arith

pub pos_suc : (x : ℕ) → pos x +ℤ pos 1 ≡ pos (suc x)
unfolding ◌+ℤ◌
pos_suc x = ground arith

-- A write to a pixel of the canvas.
pub store_px :
    (b : Buf) (x y c : ℕ)
    → x < map_w
    → y < map_h
    → store b (index (pos x) (pos y)) c ≡ some (update b (px x y) c)
unfolding store
store_px b x y c h k = rw (index_pos x y) (ground arith)

abbrev within : ℕ → ℕ → ℕ → Bool
within a k v = leb a v && ltb v (a + k)

fill_row_lem :
    (k : ℕ) (b : Buf) (x y c i j : ℕ)
    → x + k ≤ max x map_w
    → y < map_h
    → i < map_w
    → j < map_h
    → (b' : Buf) × (fill_row k b (pos x) (pos y) c ≡ some b')
      × (b' (px i j) ≡ (if within x k i && j == y then c else b (px i j)))
unfolding fill_row
fill_row_lem zero b x y c i j h ky hi hj = (b, refl, ground arith)
fill_row_lem (suc k) b x y c i j h ky hi hj =
    let (b', e, v) = fill_row_lem k (update b (px x y) c) (suc x) y c i j (omega arith) ky hi hj in
    (b', rw (store_px b x y c (omega arith) ky, pos_suc x) e, ground (arith, v))

fill_rows_lem :
    (k : ℕ) (b : Buf) (x : ℕ) (x1 : ℤ) (y c i j : ℕ)
    → x + rounds (pos x) x1 ≤ max x map_w
    → y + k ≤ max y map_h
    → i < map_w
    → j < map_h
    → (b' : Buf) × (fill_rows k b (pos x) x1 (pos y) c ≡ some b')
      × (b' (px i j) ≡ (if within x (rounds (pos x) x1) i && within y k j then c else b (px i j)))
unfolding fill_rows
fill_rows_lem zero b x x1 y c i j h ky hi hj = (b, refl, ground arith)
fill_rows_lem (suc k) b x x1 y c i j h ky hi hj =
    let m = rounds (pos x) x1 in
    let (b1, e1, v1) = fill_row_lem m b x y c i j h (omega arith) hi hj in
    let (b2, e2, v2) = fill_rows_lem k b1 x x1 (suc y) c i j h (omega arith) hi hj in
    (b2, rw (e1, pos_suc y) e2, ground (arith, v1, v2))

-- Whether `v` lies between two coordinates, in whichever order they are.
abbrev pub between : ℤ → ℤ → ℕ → Bool
between a b v = leb_ℤ a (pos v) && leb_ℤ (pos v) b || leb_ℤ b (pos v) && leb_ℤ (pos v) a

clip_low_lem : (z : ℤ) → clip_low z ≡ pos (pos_part z)
clip_low_lem (pos n) = ground arith
clip_low_lem (negsuc n) = ground arith

rounds_lem : (s : ℕ) (h : ℤ) → rounds (pos s) h ≡ pos_part (h +ℤ pos 1) - s
unfolding ◌+ℤ◌ ◌-ℤ◌
rounds_lem s (pos h) = ground arith
rounds_lem s (negsuc h) = ground arith

clip_high_lem :
    (b : ℤ) (w : ℕ) → 0 < w → pos_part (clip_high b w +ℤ pos 1) ≡ min (pos_part (b +ℤ pos 1)) w
unfolding ◌+ℤ◌
clip_high_lem (pos b) w h = ground arith
clip_high_lem (negsuc b) w h = ground arith

suc_part : (b : ℤ) (i : ℕ) → ltb i (pos_part (b +ℤ pos 1)) ≡ leb_ℤ (pos i) b
unfolding ◌+ℤ◌
suc_part (pos b) i = ground arith
suc_part (negsuc b) i = ground arith

leb_part : (a : ℤ) (i : ℕ) → leb (pos_part a) i ≡ leb_ℤ a (pos i)
leb_part (pos a) i = ground arith
leb_part (negsuc a) i = ground arith

-- The rounds of a clipped range stay on the canvas.
rounds_fit : (s : ℕ) (b : ℤ) (w : ℕ) → 0 < w → s + rounds (pos s) (clip_high b w) ≤ max s w
rounds_fit s b w h = omega (arith, rounds_lem s (clip_high b w), clip_high_lem b w h)

-- They are the pixels of the range that are on the canvas.
within_clip :
    (a b : ℤ) (w i : ℕ)
    → i < w
    → within (pos_part a) (rounds (pos (pos_part a)) (clip_high b w)) i
      ≡ leb_ℤ a (pos i) && leb_ℤ (pos i) b
within_clip a b w i h =
    rw
      (
        rounds_lem (pos_part a) (clip_high b w),
        clip_high_lem b w (omega arith),
        ← leb_part a i,
        ← suc_part b i,
      )
      (ground arith)

ordered_lem :
    (a b : ℤ) (v : ℕ)
    → let (l, h) = ordered a b in leb_ℤ l (pos v) && leb_ℤ (pos v) h ≡ between a b v
ordered_lem (pos a) (pos b) v = ground arith
ordered_lem (pos a) (negsuc b) v = ground arith
ordered_lem (negsuc a) (pos b) v = ground arith
ordered_lem (negsuc a) (negsuc b) v = ground arith

-- A rectangle never writes outside the buffer, wherever its corners lie, and colours exactly the
-- pixels of the canvas that lie between them, the corners included, in whichever order they are.
pub fill_rect-between :
    (b : Buf) (x0 y0 x1 y1 : ℤ) (c i j : ℕ)
    → i < map_w
    → j < map_h
    → (b' : Buf) × (fill_rect b x0 y0 x1 y1 c ≡ some b')
      × (b' (px i j) ≡ (if between x0 x1 i && between y0 y1 j then c else b (px i j)))
unfolding fill_rect
fill_rect-between b x0 y0 x1 y1 c i j hi hj =
    let (xa, xb) = ordered x0 x1 in
    let (ya, yb) = ordered y0 y1 in
    let s = pos_part xa in
    let t = pos_part ya in
    let (b', e, v) =
      fill_rows_lem (rounds (pos t) (clip_high yb map_h)) b s (clip_high xb map_w) t c i j
        (rounds_fit s xb map_w (omega arith)) (rounds_fit t yb map_h (omega arith)) hi hj in
    (
      b',
      rw (clip_low_lem xa, clip_low_lem ya) e,
      v
          ∙ rw
              (
                within_clip xa xb map_w i hi,
                within_clip ya yb map_h j hj,
                ordered_lem x0 x1 i,
                ordered_lem y0 y1 j,
              )
              refl,
    )
