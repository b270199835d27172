-- ===== src/Map/Disc.antt =====
-- main/map_view.c: what `draw_disc` paints.
use tab5_client.Prelude.{
  ℕ, zero, suc, ◌+◌, ◌-◌, ◌*◌, ◌≤◌, ◌<◌, ◌≡◌, refl, ap, ◌∙◌, inl, inr, Bool, true, false, ◌&&◌,
  ◌||◌, some, arith, leb, if◌then◌else◌, Bool-cases, leb→le,
}
use tab5_client.Prelude.Int.{
  ℤ, pos, negsuc, pos_part, neg_part, ◌+ℤ◌, ◌-ℤ◌, ◌*ℤ◌, leb_ℤ, ltb_ℤ, -ℤ_parts, +ℤ_parts,
}
use tab5_client.Map.{
  Buf, map_w, map_h, eq_ℤ, put_px, disc_row, disc_rows, disc_fits, draw_disc, neg_ℤ, rounds,
}
use tab5_client.Map.Rect.{px}
use tab5_client.Map.Dots.{put_px-on}

-- Whether an offset from the centre is within the radius.
abbrev pub in_disc : ℤ → ℤ → ℤ → Bool
in_disc dx dy r = leb_ℤ (dx *ℤ dx +ℤ dy *ℤ dy) (r *ℤ r)

-- Whether `d` is one of the `k` integers from `a` on.
abbrev among : ℤ → ℕ → ℤ → Bool
among a k d = leb_ℤ a d && ltb_ℤ d (a +ℤ pos k)

eq_of_parts : (a b : ℤ) → pos_part a + neg_part b ≡ pos_part b + neg_part a → a ≡ b
eq_of_parts (pos a) (pos b) h = ground arith
eq_of_parts (pos a) (negsuc b) h = absurd (omega arith)
eq_of_parts (negsuc a) (pos b) h = absurd (omega arith)
eq_of_parts (negsuc a) (negsuc b) h = ground arith

offset_eq : (c d : ℤ) (i : ℕ) → eq_ℤ (c +ℤ d) (pos i) ≡ true → d ≡ pos i -ℤ c
offset_eq c d i h = eq_of_parts d (pos i -ℤ c) (ground (arith, +ℤ_parts c d, -ℤ_parts (pos i) c))

-- One more integer at the front of a range.
among-suc :
    (P : ℤ → Bool) (c d : ℤ) (i k : ℕ)
    → let v = pos i -ℤ c in
      (P d && eq_ℤ (c +ℤ d) (pos i) || among (d +ℤ pos 1) k v && P v) ≡ among d (suc k) v && P v
among-suc P c d i k = elim (Bool-cases (eq_ℤ (c +ℤ d) (pos i))) [
  | inl h ↦
      rw (← offset_eq c d i h) (
        ground (arith, +ℤ_parts d (pos 1), +ℤ_parts d (pos (suc k)), +ℤ_parts (d +ℤ pos 1) (pos k)))
  | inr h ↦ ground (
    arith,
    +ℤ_parts c d,
    -ℤ_parts (pos i) c,
    +ℤ_parts d (pos 1),
    +ℤ_parts d (pos (suc k)),
    +ℤ_parts (d +ℤ pos 1) (pos k),
  )
]

-- Painted by the first test, or by the second after it.
twice :
    (p q : Bool) (c v v1 v2 : ℕ)
    → v1 ≡ (if p then c else v)
    → v2 ≡ (if q then c else v1)
    → v2 ≡ (if p || q then c else v)
twice p q c v v1 v2 h k = ground arith

shift : (p q r : Bool) → (p && (q && r)) ≡ ((p && q) && r)
shift p q r = ground arith

module _ (cx cy r : ℤ) (c i j : ℕ) (hi : i < map_w) (hj : j < map_h) where
  -- The pixel's offset from the centre.
  abbrev di : ℤ
  di = pos i -ℤ cx

  abbrev dj : ℤ
  dj = pos j -ℤ cy

  abbrev row_test : ℤ → ℤ → Bool
  row_test dy d = in_disc d dy r && eq_ℤ (cy +ℤ dy) (pos j)

  first_lem :
      (b : Buf) (dx dy : ℤ)
      → (b' : Buf) × ((if in_disc dx dy r then put_px b (cx +ℤ dx) (cy +ℤ dy) c else some b)
          ≡ some b')
        × (b' (px i j) ≡ (if row_test dy dx && eq_ℤ (cx +ℤ dx) (pos i) then c else b (px i j)))
  first_lem b dx dy = elim (Bool-cases (in_disc dx dy r)) [
    | inl h ↦
        let (b1, e, v) = put_px-on b c i j hi hj (cx +ℤ dx) (cy +ℤ dy) in
        (b1, rw h e, v ∙ rw h (ground arith))
    | inr h ↦ (b, rw h refl, rw h refl)
  ]

  disc_row_lem :
      (k : ℕ) (b : Buf) (dx dy : ℤ)
      → (b' : Buf) × (disc_row k b cx cy r dx dy c ≡ some b')
        × (b' (px i j) ≡ (if among dx k di && row_test dy di then c else b (px i j)))
  unfolding disc_row
  disc_row_lem zero b dx dy = (b, refl, ground (arith, +ℤ_parts dx (pos 0)))
  disc_row_lem (suc k) b dx dy =
      let (b1, e1, v1) = first_lem b dx dy in
      let (b2, e2, v2) = disc_row_lem k b1 (dx +ℤ pos 1) dy in
      (
        b2,
        rw e1 e2,
        twice _ _ c (b (px i j)) (b1 (px i j)) (b2 (px i j)) v1 v2
            ∙ ap (λ (t : Bool). if t then c else b (px i j)) (among-suc (row_test dy) cx dx i k),
      )

  -- The columns of a row.
  abbrev columns : ℤ → Bool
  columns dy = among (neg_ℤ r) (rounds (neg_ℤ r) r) di && in_disc di dy r

  disc_rows_lem :
      (k : ℕ) (b : Buf) (dy : ℤ)
      → (b' : Buf) × (disc_rows k b cx cy r dy c ≡ some b')
        × (b' (px i j) ≡ (if among dy k dj && columns dj then c else b (px i j)))
  unfolding disc_rows
  disc_rows_lem zero b dy = (b, refl, ground (arith, +ℤ_parts dy (pos 0)))
  disc_rows_lem (suc k) b dy =
      let (b1, e1, v1) = disc_row_lem (rounds (neg_ℤ r) r) b (neg_ℤ r) dy in
      let (b2, e2, v2) = disc_rows_lem k b1 (dy +ℤ pos 1) in
      (
        b2,
        rw e1 e2,
        twice _ _ c (b (px i j)) (b1 (px i j)) (b2 (px i j))
              (v1
                ∙ ap (λ (t : Bool). if t then c else b (px i j))
                    (shift (among (neg_ℤ r) (rounds (neg_ℤ r) r) di) (in_disc di dy r)
                      (eq_ℤ (cy +ℤ dy) (pos j))))
              v2
            ∙ ap (λ (t : Bool). if t then c else b (px i j)) (among-suc columns cy dy j k),
      )

square_lt : (k r n : ℕ) → (r + suc k) * (r + suc k) + n ≤ r * r → ⊥
square_lt k r n h = absurd (grind arith)

apart : (m r : ℕ) → leb m r ≡ false → m ≡ r + suc (m - suc r)
apart m r h = ground arith

square_le : (m n r : ℕ) → m * m + n ≤ r * r → m ≤ r
square_le m n r h = elim (Bool-cases (leb m r)) [
  | inl e ↦ leb→le m r e
  | inr e ↦ absurd (square_lt (m - suc r) r n (rw (← apart m r e) h))
]

size : ℤ → ℕ
size (pos n) = n
size (negsuc n) = suc n

square_part : (d : ℤ) → d *ℤ d ≡ pos (size d * size d)
unfolding ◌*ℤ◌ size
square_part (pos n) = ground arith
square_part (negsuc n) = ground arith

in_range :
    (d : ℤ) (r : ℕ) → size d ≤ r → among (neg_ℤ (pos r)) (rounds (neg_ℤ (pos r)) (pos r)) d ≡ true
unfolding size ◌+ℤ◌ ◌-ℤ◌
in_range (pos d) zero h = ground arith
in_range (pos d) (suc r) h = ground arith
in_range (negsuc d) zero h = absurd (omega arith)
in_range (negsuc d) (suc r) h = ground arith

-- An offset within the radius is one that the loop visits.
visited :
    (d e : ℤ) (r : ℕ)
    → in_disc d e (pos r) ≡ true
    → among (neg_ℤ (pos r)) (rounds (neg_ℤ (pos r)) (pos r)) d ≡ true
unfolding size
visited d e r h =
    let low = neg_ℤ (pos r) in
    let h' : in_disc d e (pos r) ≡ true = h in
    let close = rw (square_part d, square_part e, square_part (pos r)) at h' in
    let le : size d ≤ r =
      square_le (size d) (size e * size e) r (
        omega
          (arith, leb→le _ _ close, +ℤ_parts (pos (size d * size d)) (pos (size e * size e)))) in
    in_range d r le

both_visited : (a b t : Bool) → (t ≡ true → a ≡ true) → (t ≡ true → b ≡ true) → (a && (b && t)) ≡ t
both_visited a b true f g = rw (f refl, g refl) refl
both_visited a b false f g = ground arith

in_disc_comm : (d e : ℤ) (r : ℕ) → in_disc d e (pos r) ≡ true → in_disc e d (pos r) ≡ true
in_disc_comm d e r h = ground (arith, +ℤ_parts (d *ℤ d) (e *ℤ e), +ℤ_parts (e *ℤ e) (d *ℤ d))

-- A disc never writes outside the buffer, wherever its centre is, and colours exactly the pixels
-- of the canvas whose distance from the centre is at most the radius.
pub draw_disc-in_disc :
    (b : Buf) (cx cy : ℤ) (r c i j : ℕ)
    → disc_fits cx cy (pos r) ≡ true
    → i < map_w
    → j < map_h
    → (b' : Buf) × (draw_disc b cx cy (pos r) c ≡ some b')
      × (b' (px i j) ≡ (if in_disc (pos i -ℤ cx) (pos j -ℤ cy) (pos r) then c else b (px i j)))
unfolding draw_disc
draw_disc-in_disc b cx cy r c i j fits hi hj =
    let low = neg_ℤ (pos r) in
    let di = pos i -ℤ cx in
    let dj = pos j -ℤ cy in
    let k = rounds low (pos r) in
    let (b', e, v) = disc_rows_lem cx cy (pos r) c i j hi hj k b low in
    (
      b',
      rw fits e,
      v
          ∙ ap (λ (t : Bool). if t then c else b (px i j))
              (both_visited (among low k dj) (among low k di) (in_disc di dj (pos r))
                (λ h. visited dj di r (in_disc_comm di dj r h)) (λ h. visited di dj r h)),
    )
