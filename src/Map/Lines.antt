-- ===== src/Map/Lines.antt =====
-- main/map_view.c: `draw_line` ends, and what it paints.
use tab5_client.Prelude.{
  ℕ, zero, suc, ◌+◌, ◌*◌, ◌≤◌, ◌<◌, ◌≡◌, refl, ◌∙◌, ◌⊎◌, inl, inr, true, false, ◌&&◌, some, arith,
  if◌then◌else◌, Bool-cases,
}
use tab5_client.Prelude.Int.{ℤ, pos, negsuc, pos_part, neg_part, ◌+ℤ◌, ◌-ℤ◌, +ℤ_parts}
use tab5_client.Map.{
  Buf, map_w, map_h, eq_ℤ, Line, line_loop, line_of, draw_line, abs_ℤ, neg_ℤ, direction, right,
  down, next_err, step_if,
}
use tab5_client.Map.Ints.{IsNear}
use tab5_client.Map.Limits.{OnLine-dot_fits, OnLine-round_fits, IsNear-line_fits, IsNear-steps}
use tab5_client.Map.Rect.{px}
use tab5_client.Map.Dots.{dot, put_dot-dot}
use tab5_client.Map.Strokes.{
  Toward, OnLine, at_end, round_lem, InSpan, InSpan-mono, dot_span, eq_of_eq_ℤ,
}

-- What happened to a pixel: it was painted, and lies between the ends, or it is as before, and
-- under no thick dot at an end.
abbrev pub Painted : Buf → Buf → ℤ → ℤ → ℤ → ℤ → ℕ → ℕ → ℕ → Type 0
Painted b b' x0 y0 x1 y1 c i j =
    ((b' (px i j) ≡ c) × InSpan x0 x1 i × InSpan y0 y1 j)
    ⊎ ((b' (px i j) ≡ b (px i j)) × (dot x0 y0 i j ≡ false) × (dot x1 y1 i j ≡ false))

dots_span :
    (s t x y x1 y1 : ℤ) (m n i j : ℕ)
    → Toward s x x1 m
    → Toward t y y1 n
    → dot x y i j ≡ true
    → InSpan x x1 i × InSpan y y1 j
dots_span s t x y x1 y1 m n i j h k d =
    (dot_span s x x1 m i h (ground arith), dot_span t y y1 n j k (ground arith))

-- The dot of the round, and what the later rounds do.
module _ (buf b1 : Buf) (x y x1 y1 : ℤ) (c i j : ℕ)
    (v1 : b1 (px i j) ≡ (if dot x y i j then c else buf (px i j))) (s t : ℤ) (m n : ℕ)
    (h : Toward s x x1 m) (k : Toward t y y1 n) where
  last_Painted : eq_ℤ x x1 && eq_ℤ y y1 ≡ true → Painted buf b1 x y x1 y1 c i j
  last_Painted done = elim (Bool-cases (dot x y i j)) [
    | inl d ↦ let (p, q) = dots_span s t x y x1 y1 m n i j h k d in inl (v1 ∙ rw d refl, p, q)
    | inr d ↦
        let ex : x ≡ x1 = eq_of_eq_ℤ x x1 (ground arith) in
        let ey : y ≡ y1 = eq_of_eq_ℤ y y1 (ground arith) in
        inr (v1 ∙ rw d refl, d, rw (← ex, ← ey) d)
  ]

  next_Painted :
      (b' : Buf) (x2 y2 : ℤ) (m' n' : ℕ)
      → Toward s x2 x1 m'
      → Toward t y2 y1 n'
      → m' ≤ m
      → n' ≤ n
      → Painted b1 b' x2 y2 x1 y1 c i j
      → Painted buf b' x y x1 y1 c i j
  next_Painted b' x2 y2 m' n' h' k' lm ln (inl (e, p, q)) =
      inl (e, InSpan-mono s x x2 x1 m m' i h h' lm p, InSpan-mono t y y2 y1 n n' j k k' ln q)
  next_Painted b' x2 y2 m' n' h' k' lm ln (inr (e, f, g)) = elim (Bool-cases (dot x y i j)) [
    | inl d ↦ let (p, q) = dots_span s t x y x1 y1 m n i j h k d in inl (e ∙ v1 ∙ rw d refl, p, q)
    | inr d ↦ inr (e ∙ v1 ∙ rw d refl, d, g)
  ]

unfinished :
    (l : Line) (a b m n : ℕ) (x y err : ℤ)
    → OnLine l a b x y err m n
    → eq_ℤ x l.x1 && eq_ℤ y l.y1 ≡ false
    → 0 < m + n
unfinished l a b zero zero x y err s h =
    let p = at_end l.sx x l.x1 s.across in let q = at_end l.sy y l.y1 s.along in absurd (cc)
unfinished l a b zero (suc n) x y err s h = omega arith
unfinished l a b (suc m) n x y err s h = omega arith

module _ (l : Line) (a b c i j : ℕ) (hi : i < map_w) (hj : j < map_h) (ha : a ≤ 134_217_728)
    (hb : b ≤ 134_217_728) (hx : IsNear l.x1) (hy : IsNear l.y1) where
  line_loop-Painted :
      (fuel m n : ℕ) (buf : Buf) (x y err : ℤ)
      → OnLine l a b x y err m n
      → m + n < fuel
      → (b' : Buf) × (line_loop fuel l buf x y err c ≡ some b') × Painted buf b' x y l.x1 l.y1 c i j
  unfolding line_loop
  line_loop-Painted zero m n buf x y err s h = absurd (omega arith)
  line_loop-Painted (suc fuel) m n buf x y err s h =
      let (b1, e1, v1) = put_dot-dot buf c i j hi hj x y in
      let dot_ok = OnLine-dot_fits l a b m n x y err s ha hb hx hy in
      let round_ok = OnLine-round_fits l a b m n x y err s ha hb hx hy in
      elim (Bool-cases (eq_ℤ x l.x1 && eq_ℤ y l.y1)) [
        | inl done ↦ (
          b1,
          rw (dot_ok, e1, done) refl,
          last_Painted buf b1 x y l.x1 l.y1 c i j v1 l.sx l.sy m n s.across s.along done,
        )
        | inr more ↦
            let (m', n', lm, ln, less, s') =
              round_lem l a b m n x y err s (unfinished l a b m n x y err s more) in
            let x2 = step_if (right l err) x l.sx in
            let y2 = step_if (down l err) y l.sy in
            let (b', e, p) =
              line_loop-Painted fuel m' n' b1 x2 y2 (next_err l err) s' (omega (arith, less, h)) in
            (
              b',
              rw (dot_ok, e1, more, round_ok) e,
              next_Painted buf b1 x y l.x1 l.y1 c i j v1 l.sx l.sy m n s.across s.along b' x2 y2 m'
                  n' s'.across s'.along lm ln p,
            )
      ]

direction-Toward : (a b : ℤ) → Toward (direction a b) a b (pos_part (abs_ℤ (b -ℤ a)))
unfolding ◌-ℤ◌
direction-Toward (pos a) (pos b) = ground arith
direction-Toward (pos a) (negsuc b) = ground arith
direction-Toward (negsuc a) (pos b) = ground arith
direction-Toward (negsuc a) (negsuc b) = ground arith

abs_parts :
    (a : ℤ)
    → (pos_part (neg_ℤ (abs_ℤ a)) ≡ 0)
      × (neg_part (neg_ℤ (abs_ℤ a)) ≡ pos_part (abs_ℤ a))
      × (neg_part (abs_ℤ a) ≡ 0)
      × (pos_part (neg_ℤ (neg_ℤ (abs_ℤ a))) ≡ pos_part (abs_ℤ a))
unfolding ◌-ℤ◌
abs_parts (pos n) = ground arith
abs_parts (negsuc n) = ground arith

start_low :
    (d e : ℤ) (a b : ℕ)
    → (pos_part d ≡ a) × (neg_part d ≡ 0)
    → (pos_part e ≡ 0) × (neg_part e ≡ b)
    → neg_part (d +ℤ e) ≤ 2 * b
unfolding ◌+ℤ◌
start_low d e a b p q = ground (arith, p, q)

start_high :
    (d e : ℤ) (a b : ℕ)
    → (pos_part d ≡ a) × (neg_part d ≡ 0)
    → (pos_part e ≡ 0) × (neg_part e ≡ b)
    → pos_part (d +ℤ e) ≤ 2 * a
unfolding ◌+ℤ◌
start_high d e a b p q = ground (arith, p, q)

-- A line whose ends are within 2^26 pixels of the canvas' origin always ends, with no sum that
-- leaves an int and no write outside the buffer; it paints nothing but its colour, only between
-- its ends (and the pixel behind the greater coordinate), and at the least the thick dots at both.
pub draw_line-Painted :
    (buf : Buf) (x0 y0 x1 y1 : ℤ) (c i j : ℕ)
    → IsNear x0
    → IsNear y0
    → IsNear x1
    → IsNear y1
    → i < map_w
    → j < map_h
    → (b' : Buf) × (draw_line buf x0 y0 x1 y1 c ≡ some b') × Painted buf b' x0 y0 x1 y1 c i j
unfolding draw_line line_of
draw_line-Painted buf x0 y0 x1 y1 c i j h0 k0 h1 k1 hi hj =
    let l = line_of x0 y0 x1 y1 in
    let a = pos_part (abs_ℤ (x1 -ℤ x0)) in
    let b = pos_part (abs_ℤ (y1 -ℤ y0)) in
    let across = abs_parts (x1 -ℤ x0) in
    let along = abs_parts (y1 -ℤ y0) in
    let s : OnLine l a b x0 y0 (l.dx +ℤ l.dy) a b = record {
      dx_part = (refl, across.2);
      dy_part = (along.0, along.1);
      across = direction-Toward x0 x1;
      along = direction-Toward y0 y1;
      m_le = omega arith;
      n_le = omega arith;
      balance = grind (arith, across, along, +ℤ_parts l.dx l.dy);
      err_low = start_low l.dx l.dy a b (refl, across.2) (along.0, along.1);
      err_high = start_high l.dx l.dy a b (refl, across.2) (along.0, along.1);
    } in
    let fits = IsNear-line_fits x0 y0 x1 y1 h0 k0 h1 k1 in
    rw fits (
      line_loop-Painted l a b c i j hi hj (IsNear-steps x0 x1 h0 h1) (IsNear-steps y0 y1 k0 k1) h1
        k1 (a + pos_part (neg_ℤ l.dy) + 1) a b buf x0 y0 (l.dx +ℤ l.dy) s (omega (arith, along)))
