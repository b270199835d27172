-- ===== src/Map/Ints.antt =====
-- main/map_view.c: what keeps the sums of the drawing within an int.
use tab5_client.Prelude.{ℕ, ◌+◌, ◌≤◌, ◌≡◌, ◌⊎◌, inl, inr, Bool, true, refl, arith, ◌&&◌}
use tab5_client.Prelude.Int.{ℤ, pos, negsuc, pos_part, neg_part, ◌+ℤ◌, ◌-ℤ◌}
use tab5_client.Map.{fits_int}

-- At most 2^26 pixels from the canvas' origin.
abbrev pub IsNear : ℤ → Type 0
IsNear z = (pos_part z ≤ 67_108_864) × (neg_part z ≤ 67_108_864)

-- The parts are within a bound.
abbrev pub Within : ℕ → ℤ → Type 0
Within n z = (pos_part z ≤ n) × (neg_part z ≤ n)

pub fits_int-Within : (n : ℕ) (z : ℤ) → n ≤ 0x7FFFFFFF → Within n z → fits_int z ≡ true
fits_int-Within n z h (p, q) = ground (arith, h, p, q)

-- One of the parts is zero.
pub one_part : (z : ℤ) → (pos_part z ≡ 0) ⊎ (neg_part z ≡ 0)
one_part (pos n) = inr refl
one_part (negsuc n) = inl refl

pub +ℤ-Within : (m n : ℕ) (a b : ℤ) → Within m a → Within n b → Within (m + n) (a +ℤ b)
unfolding ◌+ℤ◌
+ℤ-Within m n a b (p, q) (s, t) = (ground (arith, p, q, s, t), ground (arith, p, q, s, t))

pub -ℤ-Within : (m n : ℕ) (a b : ℤ) → Within m a → Within n b → Within (m + n) (a -ℤ b)
unfolding ◌-ℤ◌
-ℤ-Within m n a b (p, q) (s, t) = (ground (arith, p, q, s, t), ground (arith, p, q, s, t))

pub all_true :
    {a b c d e : Bool}
    → a ≡ true
    → b ≡ true
    → c ≡ true
    → d ≡ true
    → e ≡ true
    → a && b && c && d && e ≡ true
all_true p q r s t = rw (p, q, r, s, t) refl
