-- ===== src/Map.antt =====
-- main/map_view.c: the drawing of the field map into its RGB565 buffer. C's int is ℤ here, and a
-- sum that leaves the 32 bits of an int is `none`, like a write outside the buffer.
pub mod Ints
pub mod Rect
pub mod Dots
pub mod Disc
pub mod Lines
pub mod Strokes
pub mod Limits
pub mod Heat
pub mod Visible
pub mod Fits
use tab5_client.Prelude.{
  ℕ, zero, suc, ◌+◌, ◌-◌, ◌*◌, ◌/◌, ◌%◌, ◌^◌, bit_or, Bool, false, ◌&&◌, Option, none, some, ltb,
  leb, ◌==◌, if◌then◌else◌, ◌<<<◌,
}
use tab5_client.Prelude.Int.{ℤ, pos, negsuc, pos_part, neg_part, ◌+ℤ◌, ◌-ℤ◌, ◌*ℤ◌, ltb_ℤ, leb_ℤ}

abbrev pub map_w : ℕ
map_w = 680

abbrev pub map_h : ℕ
map_h = 900

-- What an int of 32 bits holds.
abbrev pub fits_int : ℤ → Bool
fits_int z = leb (pos_part z) 0x7FFFFFFF && leb (neg_part z) 0x80000000

-- The pixels by their index in the buffer of `map_w` times `map_h`.
abbrev pub Buf : Type 0
Buf = ℕ → ℕ

abbrev pub update : Buf → ℕ → ℕ → Buf
update b i c j = if i == j then c else b j

-- An assignment to `s_buf[i]`; `none` is a write outside the buffer.
unfoldable pub store : Buf → ℤ → ℕ → Option Buf
store b (pos i) c = if ltb i (map_w * map_h) then some (update b i c) else none
store b (negsuc i) c = none

infixl 5 ◌>>=◌
abbrev pub ◌>>=◌ {ℓ} : {A : Type ℓ} → Option A → (A → Option Buf) → Option Buf
none >>= f = none
some b >>= f = f b

abbrev pub index : ℤ → ℤ → ℤ
index x y = y *ℤ pos map_w +ℤ x

-- `rgb565` of a colour of 24 bits.
unfoldable pub rgb565 : ℕ → ℕ
rgb565 c =
    let r = c / 2 ^ 16 % 2 ^ 8 in
    let g = c / 2 ^ 8 % 2 ^ 8 in
    let b = c % 2 ^ 8 in
    bit_or (bit_or ((r / 2 ^ 3) <<< 11) ((g / 2 ^ 2) <<< 5)) (b / 2 ^ 3) % 2 ^ 16

-- `(unsigned)x < w`: a negative int becomes larger than any width.
abbrev pub unsigned_lt : ℤ → ℕ → Bool
unsigned_lt (pos n) w = ltb n w
unsigned_lt (negsuc n) w = false

unfoldable pub put_px : Buf → ℤ → ℤ → ℕ → Option Buf
put_px b x y c =
    if unsigned_lt x map_w && unsigned_lt y map_h then store b (index x y) c else some b

-- How often `for (i = lo; i <= hi; i++)` runs.
abbrev pub rounds : ℤ → ℤ → ℕ
rounds lo hi = pos_part (hi +ℤ pos 1 -ℤ lo)

-- The inner loop of `fill_rect`, from `x` on.
unfoldable pub fill_row : ℕ → Buf → ℤ → ℤ → ℕ → Option Buf
fill_row zero b x y c = some b
fill_row (suc k) b x y c = store b (index x y) c >>= λ b'. fill_row k b' (x +ℤ pos 1) y c

unfoldable pub fill_rows : ℕ → Buf → ℤ → ℤ → ℤ → ℕ → Option Buf
fill_rows zero b x0 x1 y c = some b
fill_rows (suc k) b x0 x1 y c =
    fill_row (rounds x0 x1) b x0 y c >>= λ b'. fill_rows k b' x0 x1 (y +ℤ pos 1) c

abbrev pub ordered : ℤ → ℤ → ℤ × ℤ
ordered a b = if ltb_ℤ b a then (b, a) else (a, b)

abbrev pub clip_low : ℤ → ℤ
clip_low a = if ltb_ℤ a (pos 0) then pos 0 else a

abbrev pub clip_high : ℤ → ℕ → ℤ
clip_high a w = if leb_ℤ (pos w) a then pos (w - 1) else a

unfoldable pub fill_rect : Buf → ℤ → ℤ → ℤ → ℤ → ℕ → Option Buf
fill_rect b x0 y0 x1 y1 c =
    let (xa, xb) = ordered x0 x1 in
    let (ya, yb) = ordered y0 y1 in
    let xl = clip_low xa in
    let yl = clip_low ya in
    let xh = clip_high xb map_w in
    let yh = clip_high yb map_h in fill_rows (rounds yl yh) b xl xh yl c

abbrev pub abs_ℤ : ℤ → ℤ
abs_ℤ (pos n) = pos n
abs_ℤ (negsuc n) = pos (suc n)

abbrev pub neg_ℤ : ℤ → ℤ
neg_ℤ a = pos 0 -ℤ a

abbrev pub eq_ℤ : ℤ → ℤ → Bool
eq_ℤ a b = leb_ℤ a b && leb_ℤ b a

-- What stays the same in the loop of `draw_line`: where it ends, the two distances, `dy` negated,
-- and the directions.
pub record Line : Type 0 where
  pub x1 : ℤ
  pub y1 : ℤ
  pub dx : ℤ
  pub sx : ℤ
  pub dy : ℤ
  pub sy : ℤ

-- A dot 2 pixels thick.
unfoldable pub put_dot : Buf → ℤ → ℤ → ℕ → Option Buf
put_dot b x y c =
    put_px b x y c >>= (λ b1. put_px b1 (x +ℤ pos 1) y c) >>= λ b2. put_px b2 x (y +ℤ pos 1) c

abbrev pub dot_fits : ℤ → ℤ → Bool
dot_fits x y = fits_int (x +ℤ pos 1) && fits_int (y +ℤ pos 1)

-- The steps of a round: `e2 >= dy` and `e2 <= dx`.
abbrev pub right : Line → ℤ → Bool
right l err = leb_ℤ l.dy (pos 2 *ℤ err)

abbrev pub down : Line → ℤ → Bool
down l err = leb_ℤ (pos 2 *ℤ err) l.dx

abbrev pub step_if : Bool → ℤ → ℤ → ℤ
step_if b a s = if b then a +ℤ s else a

abbrev pub next_err : Line → ℤ → ℤ
next_err l err = step_if (down l err) (step_if (right l err) err l.dy) l.dx

abbrev pub round_fits : Line → ℤ → ℤ → ℤ → Bool
round_fits l x y err =
    fits_int (pos 2 *ℤ err)
    && fits_int (step_if (right l err) err l.dy)
    && fits_int (next_err l err)
    && fits_int (step_if (right l err) x l.sx)
    && fits_int (step_if (down l err) y l.sy)

-- The loop, with fuel: `none` when it runs out.
unfoldable pub line_loop : ℕ → Line → Buf → ℤ → ℤ → ℤ → ℕ → Option Buf
line_loop zero l b x0 y0 err c = none
line_loop (suc fuel) l b x0 y0 err c =
    (if dot_fits x0 y0 then put_dot b x0 y0 c else none) >>= λ b'.
    let next =
      line_loop fuel l b' (step_if (right l err) x0 l.sx) (step_if (down l err) y0 l.sy)
        (next_err l err) c in
    if eq_ℤ x0 l.x1 && eq_ℤ y0 l.y1 then some b' else if round_fits l x0 y0 err then next else none

abbrev pub direction : ℤ → ℤ → ℤ
direction a b = if ltb_ℤ a b then pos 1 else negsuc 0

unfoldable pub line_of : ℤ → ℤ → ℤ → ℤ → Line
line_of x0 y0 x1 y1 = record {
  x1 = x1;
  y1 = y1;
  dx = abs_ℤ (x1 -ℤ x0);
  sx = direction x0 x1;
  dy = neg_ℤ (abs_ℤ (y1 -ℤ y0));
  sy = direction y0 y1;
}

-- The distances that come before the loop.
abbrev pub line_fits : ℤ → ℤ → ℤ → ℤ → Bool
line_fits x0 y0 x1 y1 =
    fits_int (x1 -ℤ x0)
    && fits_int (y1 -ℤ y0)
    && fits_int (abs_ℤ (x1 -ℤ x0))
    && fits_int (abs_ℤ (y1 -ℤ y0))
    && fits_int (abs_ℤ (x1 -ℤ x0) +ℤ neg_ℤ (abs_ℤ (y1 -ℤ y0)))

-- A round moves at least one pixel towards the end, in one direction or both.
unfoldable pub draw_line : Buf → ℤ → ℤ → ℤ → ℤ → ℕ → Option Buf
unfolding line_of
draw_line b x0 y0 x1 y1 c =
    let l = line_of x0 y0 x1 y1 in
    if line_fits x0 y0 x1 y1
    then line_loop (pos_part l.dx + pos_part (neg_ℤ l.dy) + 1) l b x0 y0 (l.dx +ℤ l.dy) c
    else none

-- The loops of `draw_disc`, from `dx` and `dy` on.
unfoldable pub disc_row : ℕ → Buf → ℤ → ℤ → ℤ → ℤ → ℤ → ℕ → Option Buf
disc_row zero b cx cy r dx dy c = some b
disc_row (suc k) b cx cy r dx dy c =
    (if leb_ℤ (dx *ℤ dx +ℤ dy *ℤ dy) (r *ℤ r) then put_px b (cx +ℤ dx) (cy +ℤ dy) c else some b)
    >>= λ b'. disc_row k b' cx cy r (dx +ℤ pos 1) dy c

unfoldable pub disc_rows : ℕ → Buf → ℤ → ℤ → ℤ → ℤ → ℕ → Option Buf
disc_rows zero b cx cy r dy c = some b
disc_rows (suc k) b cx cy r dy c = disc_row (rounds (neg_ℤ r) r) b cx cy r (neg_ℤ r) dy c >>= λ b'.
    disc_rows k b' cx cy r (dy +ℤ pos 1) c

-- The outermost coordinates that it computes.
abbrev pub disc_fits : ℤ → ℤ → ℤ → Bool
disc_fits cx cy r =
    fits_int (cx +ℤ neg_ℤ r) && fits_int (cx +ℤ r) && fits_int (cy +ℤ neg_ℤ r) && fits_int (cy +ℤ r)

unfoldable pub draw_disc : Buf → ℤ → ℤ → ℤ → ℕ → Option Buf
draw_disc b cx cy r c =
    if disc_fits cx cy r then disc_rows (rounds (neg_ℤ r) r) b cx cy r (neg_ℤ r) c else none
