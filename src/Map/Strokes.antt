-- ===== src/Map/Strokes.antt =====
-- main/map_view.c: the rounds of `draw_line`: how its error term keeps both steps on the line.
use tab5_client.Prelude.{
  ℕ, zero, suc, ◌+◌, ◌*◌, ◌≤◌, ◌<◌, ◌≡◌, ◌⊎◌, inl, inr, true, false, arith, Bool-cases, leb→le,
}
use tab5_client.Prelude.Int.{ℤ, pos, negsuc, pos_part, neg_part, ◌+ℤ◌, ◌*ℤ◌, +ℤ_parts, ◌≤ℤ◌}
use tab5_client.Map.{eq_ℤ, Line, right, down, step_if, next_err}
use tab5_client.Map.Ints.{one_part}

-- `n` steps of `s` lead from `a` to `b`.
abbrev pub Toward : ℤ → ℤ → ℤ → ℕ → Type 0
Toward s a b n =
    ((s ≡ pos 1) × (pos_part a + n + neg_part b ≡ pos_part b + neg_part a))
    ⊎ ((s ≡ negsuc 0) × (pos_part b + n + neg_part a ≡ pos_part a + neg_part b))

-- Where the loop stands: `m` and `n` steps are left of `a` and `b`, and `err` is
-- (m - 1) b - (n - 1) a, between -2 b and 2 a.
pub record OnLine (l : Line) (a b : ℕ) (x y err : ℤ) (m n : ℕ) : Type 0 where
  pub dx_part : (pos_part l.dx ≡ a) × (neg_part l.dx ≡ 0)
  pub dy_part : (pos_part l.dy ≡ 0) × (neg_part l.dy ≡ b)
  pub across : Toward l.sx x l.x1 m
  pub along : Toward l.sy y l.y1 n
  pub m_le : m ≤ a
  pub n_le : n ≤ b
  pub balance : pos_part err + b + n * a ≡ neg_part err + m * b + a
  pub err_low : neg_part err ≤ 2 * b
  pub err_high : pos_part err ≤ 2 * a

double_parts :
    (e : ℤ) → pos_part (pos 2 *ℤ e) + 2 * neg_part e ≡ neg_part (pos 2 *ℤ e) + 2 * pos_part e
unfolding ◌*ℤ◌
double_parts (pos e) = ground arith
double_parts (negsuc e) = ground arith

-- A round that goes right starts from an error term that is not below -b / 2, and one that goes
-- down from one that is not above a / 2.
right_low :
    (l : Line) (a b m n : ℕ) (x y err : ℤ)
    → OnLine l a b x y err m n
    → right l err ≡ true
    → 2 * neg_part err ≤ b
right_low l a b m n x y err s r =
    let h = leb→le _ _ r in
    let d = double_parts err in
    elim (one_part err) [
      | inl p ↦ elim (one_part (pos 2 *ℤ err)) [
        | inl q ↦ omega (arith, p, q, h, d, s.dy_part)
        | inr q ↦ omega (arith, p, q, h, d, s.dy_part)
      ]
      | inr p ↦ omega (arith, p)
    ]

down_high :
    (l : Line) (a b m n : ℕ) (x y err : ℤ)
    → OnLine l a b x y err m n
    → down l err ≡ true
    → 2 * pos_part err ≤ a
down_high l a b m n x y err s r =
    let h = leb→le _ _ r in
    let d = double_parts err in
    elim (one_part err) [
      | inl p ↦ omega (arith, p)
      | inr p ↦ elim (one_part (pos 2 *ℤ err)) [
        | inl q ↦ omega (arith, p, q, h, d, s.dx_part)
        | inr q ↦ omega (arith, p, q, h, d, s.dx_part)
      ]
    ]

-- A step right lowers the error term by b, a step down raises it by a.
low_lem :
    (err d : ℤ) (a b : ℕ)
    → (pos_part d ≡ 0) × (neg_part d ≡ b)
    → pos_part err ≤ 2 * a
    → 2 * neg_part err ≤ b
    → (neg_part (err +ℤ d) ≤ 2 * b)
      × (pos_part (err +ℤ d) ≤ 2 * a)
      × (pos_part (err +ℤ d) ≤ pos_part err)
unfolding ◌+ℤ◌
low_lem err d a b p h l =
    (ground (arith, p, h, l), ground (arith, p, h, l), ground (arith, p, h, l))

high_lem :
    (err d : ℤ) (a b : ℕ)
    → (pos_part d ≡ a) × (neg_part d ≡ 0)
    → neg_part err ≤ 2 * b
    → 2 * pos_part err ≤ a
    → (neg_part (err +ℤ d) ≤ 2 * b) × (pos_part (err +ℤ d) ≤ 2 * a)
unfolding ◌+ℤ◌
high_lem err d a b p h l = (ground (arith, p, h, l), ground (arith, p, h, l))

step-Toward : (s a b : ℤ) (n : ℕ) → Toward s a b (suc n) → Toward s (a +ℤ s) b n
step-Toward s a b n (inl (e, h)) = inl (e, rw e (omega (arith, +ℤ_parts a (pos 1))))
step-Toward s a b n (inr (e, h)) = inr (e, rw e (omega (arith, +ℤ_parts a (negsuc 0))))

pub at_end : (s a b : ℤ) → Toward s a b 0 → eq_ℤ a b ≡ true
at_end s a b (inl (e, h)) = ground arith
at_end s a b (inr (e, h)) = ground arith

-- Neither step overshoots.
right_stays :
    (l : Line) (a b n : ℕ) (x y err : ℤ) → OnLine l a b x y err 0 (suc n) → right l err ≡ false
right_stays l a b n x y err s = elim (Bool-cases (right l err)) [
  | inl h ↦ absurd (omega (arith, double_parts err, s.dy_part, s.balance, s.n_le, leb→le _ _ h))
  | inr h ↦ h
]

down_stays :
    (l : Line) (a b m : ℕ) (x y err : ℤ) → OnLine l a b x y err (suc m) 0 → down l err ≡ false
down_stays l a b m x y err s = elim (Bool-cases (down l err)) [
  | inl h ↦ absurd (omega (arith, double_parts err, s.dx_part, s.balance, s.m_le, leb→le _ _ h))
  | inr h ↦ h
]

-- One of them is made.
some_move :
    (l : Line) (a b m n : ℕ) (x y err : ℤ)
    → OnLine l a b x y err m n
    → (right l err ≡ true) ⊎ (down l err ≡ true)
some_move l a b m n x y err s = elim (Bool-cases (right l err)) [
  | inl h ↦ inl h
  | inr h ↦ inr (ground (arith, s.dx_part, s.dy_part))
]

move_right :
    (l : Line) (a b m n : ℕ) (x y err : ℤ)
    → OnLine l a b x y err (suc m) n
    → 2 * neg_part err ≤ b
    → OnLine l a b (x +ℤ l.sx) y (err +ℤ l.dy) m n
move_right l a b m n x y err s low = record {
  dx_part = s.dx_part;
  dy_part = s.dy_part;
  across = step-Toward l.sx x l.x1 m s.across;
  along = s.along;
  m_le = omega (arith, s.m_le);
  n_le = s.n_le;
  balance = omega (arith, s.balance, s.dy_part, +ℤ_parts err l.dy);
  err_low = (low_lem err l.dy a b s.dy_part s.err_high low).0;
  err_high = (low_lem err l.dy a b s.dy_part s.err_high low).1;
}

move_down :
    (l : Line) (a b m n : ℕ) (x y err : ℤ)
    → OnLine l a b x y err m (suc n)
    → 2 * pos_part err ≤ a
    → OnLine l a b x (y +ℤ l.sy) (err +ℤ l.dx) m n
move_down l a b m n x y err s high = record {
  dx_part = s.dx_part;
  dy_part = s.dy_part;
  across = s.across;
  along = step-Toward l.sy y l.y1 n s.along;
  m_le = s.m_le;
  n_le = omega (arith, s.n_le);
  balance = omega (arith, s.balance, s.dx_part, +ℤ_parts err l.dx);
  err_low = (high_lem err l.dx a b s.dx_part s.err_low high).0;
  err_high = (high_lem err l.dx a b s.dx_part s.err_low high).1;
}

both_high :
    (l : Line) (a b m n : ℕ) (x y err : ℤ)
    → OnLine l a b x y err (suc m) (suc n)
    → right l err ≡ true
    → down l err ≡ true
    → 2 * pos_part (err +ℤ l.dy) ≤ a
both_high l a b m n x y err s r d =
    let low = right_low l a b (suc m) (suc n) x y err s r in
    let high = down_high l a b (suc m) (suc n) x y err s d in
    let less = (low_lem err l.dy a b s.dy_part s.err_high low).2 in omega (arith, high, less)

-- A round comes nearer to the end.
abbrev pub Nearer : Line → ℕ → ℕ → ℤ → ℤ → ℤ → ℕ → ℕ → Type 0
Nearer l a b x y err m n =
    (m' : ℕ) × (n' : ℕ) × (m' ≤ m)
    × (n' ≤ n)
    × (m' + n' < m + n)
    × OnLine l a b (step_if (right l err) x l.sx) (step_if (down l err) y l.sy) (next_err l err) m'
        n'

pub round_lem :
    (l : Line) (a b m n : ℕ) (x y err : ℤ)
    → OnLine l a b x y err m n
    → 0 < m + n
    → Nearer l a b x y err m n
round_lem l a b zero zero x y err s h = absurd (omega arith)
round_lem l a b zero (suc n) x y err s h =
    let r = right_stays l a b n x y err s in
    elim (some_move l a b 0 (suc n) x y err s) [
      | inl q ↦ absurd (cc)
      | inr d ↦ (
        0,
        n,
        omega arith,
        omega arith,
        omega arith,
        rw (r, d) (move_down l a b 0 n x y err s (down_high l a b 0 (suc n) x y err s d)),
      )
    ]
round_lem l a b (suc m) zero x y err s h =
    let d = down_stays l a b m x y err s in
    elim (some_move l a b (suc m) 0 x y err s) [
      | inl r ↦ (
        m,
        0,
        omega arith,
        omega arith,
        omega arith,
        rw (r, d) (move_right l a b m 0 x y err s (right_low l a b (suc m) 0 x y err s r)),
      )
      | inr q ↦ absurd (cc)
    ]
round_lem l a b (suc m) (suc n) x y err s h = elim (Bool-cases (right l err)) [
  | inl r ↦ elim (Bool-cases (down l err)) [
    | inl d ↦ (
      m,
      n,
      omega arith,
      omega arith,
      omega arith,
      rw (r, d)
          (move_down l a b m n (x +ℤ l.sx) y (err +ℤ l.dy)
            (move_right l a b m (suc n) x y err s (right_low l a b (suc m) (suc n) x y err s r))
            (both_high l a b m n x y err s r d)),
    )
    | inr d ↦ (
      m,
      suc n,
      omega arith,
      omega arith,
      omega arith,
      rw (r, d)
          (move_right l a b m (suc n) x y err s (right_low l a b (suc m) (suc n) x y err s r)),
    )
  ]
  | inr r ↦ elim (some_move l a b (suc m) (suc n) x y err s) [
    | inl q ↦ absurd (cc)
    | inr d ↦ (
      suc m,
      n,
      omega arith,
      omega arith,
      omega arith,
      rw (r, d) (move_down l a b (suc m) n x y err s (down_high l a b (suc m) (suc n) x y err s d)),
    )
  ]
]

-- Between two coordinates, in whichever order, or just behind the greater.
abbrev pub InSpan : ℤ → ℤ → ℕ → Type 0
InSpan a b v = (a ≤ℤ pos v) × (pos v ≤ℤ b +ℤ pos 1) ⊎ (b ≤ℤ pos v) × (pos v ≤ℤ a +ℤ pos 1)

pub InSpan-mono :
    (s a a' b : ℤ) (n n' v : ℕ)
    → Toward s a b n
    → Toward s a' b n'
    → n' ≤ n
    → InSpan a' b v
    → InSpan a b v
InSpan-mono s a a' b n n' v t t' h i =
    ground (arith, +ℤ_parts a (pos 1), +ℤ_parts a' (pos 1), +ℤ_parts b (pos 1))

-- A thick dot on the way lies in the span.
pub dot_span :
    (s a b : ℤ) (n v : ℕ)
    → Toward s a b n
    → (eq_ℤ a (pos v) ≡ true) ⊎ (eq_ℤ (a +ℤ pos 1) (pos v) ≡ true)
    → InSpan a b v
dot_span s a b n v t h = ground (arith, +ℤ_parts a (pos 1), +ℤ_parts b (pos 1))

pub eq_of_eq_ℤ : (a b : ℤ) → eq_ℤ a b ≡ true → a ≡ b
eq_of_eq_ℤ (pos a) (pos b) h = ground arith
eq_of_eq_ℤ (pos a) (negsuc b) h = ground arith
eq_of_eq_ℤ (negsuc a) (pos b) h = ground arith
eq_of_eq_ℤ (negsuc a) (negsuc b) h = ground arith
