-- ===== src/Map/Limits.antt =====
-- main/map_view.c: that no sum of `draw_line` leaves an int, with both ends near the canvas.
use tab5_client.Prelude.{ℕ, ◌+◌, ◌*◌, ◌≤◌, ◌≡◌, inl, inr, Bool, true, refl, arith, Bool-cases}
use tab5_client.Prelude.Int.{ℤ, pos, negsuc, pos_part, ◌+ℤ◌, ◌-ℤ◌, ◌*ℤ◌}
use tab5_client.Map.{
  Line, abs_ℤ, neg_ℤ, right, down, step_if, next_err, dot_fits, round_fits, line_fits,
}
use tab5_client.Map.Ints.{IsNear, Within, fits_int-Within, one_part, +ℤ-Within, -ℤ-Within, all_true}
use tab5_client.Map.Strokes.{Toward, OnLine}

-- A place from which so few steps lead to a place nearby.
Toward-Within :
    (s a b : ℤ) (n : ℕ) → Toward s a b n → n ≤ 134_217_728 → IsNear b → Within 201_326_592 a
Toward-Within s a b n t h v = elim (one_part a) [
  | inl p ↦ ground (arith, p, t, h, v)
  | inr p ↦ ground (arith, p, t, h, v)
]

direction-Within : (s a b : ℤ) (n : ℕ) → Toward s a b n → Within 1 s
direction-Within s a b n (inl (e, h)) = rw e (omega arith, omega arith)
direction-Within s a b n (inr (e, h)) = rw e (omega arith, omega arith)

step_if-Within :
    (m n : ℕ) (b : Bool) (x d : ℤ) → Within m x → Within n d → Within (m + n) (step_if b x d)
step_if-Within m n b x d h k = elim (Bool-cases b) [
  | inl t ↦ rw t (+ℤ-Within m n x d h k)
  | inr t ↦ rw t (omega (arith, h), omega (arith, h))
]

double-Within : (n : ℕ) (z : ℤ) → Within n z → Within (2 * n) (pos 2 *ℤ z)
unfolding ◌*ℤ◌
double-Within n z (p, q) = (ground (arith, p, q), ground (arith, p, q))

module _ (l : Line) (a b m n : ℕ) (x y err : ℤ) (s : OnLine l a b x y err m n)
    (ha : a ≤ 134_217_728) (hb : b ≤ 134_217_728) (hx : IsNear l.x1) (hy : IsNear l.y1) where
  x_Within : Within 201_326_592 x
  x_Within = Toward-Within l.sx x l.x1 m s.across (omega (arith, s.m_le, ha)) hx

  y_Within : Within 201_326_592 y
  y_Within = Toward-Within l.sy y l.y1 n s.along (omega (arith, s.n_le, hb)) hy

  err_Within : Within 268_435_456 err
  err_Within = (omega (arith, s.err_high, ha), omega (arith, s.err_low, hb))

  dx_Within : Within 134_217_728 l.dx
  dx_Within = (omega (arith, s.dx_part, ha), omega (arith, s.dx_part))

  dy_Within : Within 134_217_728 l.dy
  dy_Within = (omega (arith, s.dy_part), omega (arith, s.dy_part, hb))

  pub OnLine-dot_fits : dot_fits x y ≡ true
  OnLine-dot_fits =
      let one : Within 1 (pos 1) = (omega arith, omega arith) in
      let p =
        fits_int-Within 201_326_593 (x +ℤ pos 1) (omega arith)
          (+ℤ-Within 201_326_592 1 x (pos 1) x_Within one) in
      let q =
        fits_int-Within 201_326_593 (y +ℤ pos 1) (omega arith)
          (+ℤ-Within 201_326_592 1 y (pos 1) y_Within one) in
      rw (p, q) refl

  pub OnLine-round_fits : round_fits l x y err ≡ true
  OnLine-round_fits =
      let r = right l err in
      let d = down l err in
      let err1 = step_if-Within 268_435_456 134_217_728 r err l.dy err_Within dy_Within in
      let err2 =
        step_if-Within (268_435_456 + 134_217_728) 134_217_728 d (step_if r err l.dy) l.dx err1
          dx_Within in
      let one = direction-Within l.sx x l.x1 m s.across in
      let two = direction-Within l.sy y l.y1 n s.along in
      all_true
        (fits_int-Within (2 * 268_435_456) (pos 2 *ℤ err) (omega arith)
          (double-Within 268_435_456 err err_Within))
        (fits_int-Within (268_435_456 + 134_217_728) (step_if r err l.dy) (omega arith) err1)
        (fits_int-Within (268_435_456 + 134_217_728 + 134_217_728) (next_err l err) (omega arith)
          err2)
        (fits_int-Within 201_326_593 (step_if r x l.sx) (omega arith)
          (step_if-Within 201_326_592 1 r x l.sx x_Within one))
        (fits_int-Within 201_326_593 (step_if d y l.sy) (omega arith)
          (step_if-Within 201_326_592 1 d y l.sy y_Within two))

abs-Within : (n : ℕ) (z : ℤ) → Within n z → Within n (abs_ℤ z) × Within n (neg_ℤ (abs_ℤ z))
unfolding ◌-ℤ◌
abs-Within n (pos z) (p, q) = ground (arith, p, q)
abs-Within n (negsuc z) (p, q) = ground (arith, p, q)

-- The distance of two places nearby.
IsNear-distance : (a b : ℤ) → IsNear a → IsNear b → Within 134_217_728 (b -ℤ a)
IsNear-distance a b h k = -ℤ-Within 67_108_864 67_108_864 b a k h

pub IsNear-line_fits :
    (x0 y0 x1 y1 : ℤ) → IsNear x0 → IsNear y0 → IsNear x1 → IsNear y1 → line_fits x0 y0 x1 y1 ≡ true
IsNear-line_fits x0 y0 x1 y1 h0 k0 h1 k1 =
    let dx = IsNear-distance x0 x1 h0 h1 in
    let dy = IsNear-distance y0 y1 k0 k1 in
    let (ax, _) = abs-Within 134_217_728 (x1 -ℤ x0) dx in
    let (ay, ny) = abs-Within 134_217_728 (y1 -ℤ y0) dy in
    all_true (fits_int-Within 134_217_728 (x1 -ℤ x0) (omega arith) dx)
      (fits_int-Within 134_217_728 (y1 -ℤ y0) (omega arith) dy)
      (fits_int-Within 134_217_728 (abs_ℤ (x1 -ℤ x0)) (omega arith) ax)
      (fits_int-Within 134_217_728 (abs_ℤ (y1 -ℤ y0)) (omega arith) ay)
      (fits_int-Within 268_435_456 (abs_ℤ (x1 -ℤ x0) +ℤ neg_ℤ (abs_ℤ (y1 -ℤ y0))) (omega arith)
        (+ℤ-Within 134_217_728 134_217_728 (abs_ℤ (x1 -ℤ x0)) (neg_ℤ (abs_ℤ (y1 -ℤ y0))) ax ny))

-- So many steps lead from one to the other.
pub IsNear-steps : (a b : ℤ) → IsNear a → IsNear b → pos_part (abs_ℤ (b -ℤ a)) ≤ 134_217_728
IsNear-steps a b h k = (abs-Within 134_217_728 (b -ℤ a) (IsNear-distance a b h k)).0.0
