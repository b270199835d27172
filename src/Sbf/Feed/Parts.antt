-- ===== src/Sbf/Feed/Parts.antt =====
-- Where the bytes in the buffer of main/sbf_parser.c's parser lie in its input.
use tab5_client.Prelude.{
  ℕ, zero, suc, ◌+◌, ◌-◌, ◌≤◌, ◌<◌, ◌≡◌, refl, sym, ap, ◌∙◌, inl, inr, [], ◌∷◌, ◌++◌, append_assoc,
  arith, ltb, Bool-cases, length, set, take, drop, length-take, length-drop, Bytes,
}
use mathlib.Core.Path.{subst₂}
use tab5_client.Float.{Fpu}
use tab5_client.Sbf.Blocks.{Parser}
use tab5_client.Sbf.Feed.{append_byte, compact, memmove_front}

-- Bytes that stand in the input one behind the other.
abbrev pub Part : Bytes → Bytes → Type 0
Part input w = (pre : Bytes) × (post : Bytes) × (input ≡ pre ++ (w ++ post))

-- The bytes in use end where the rest of the input begins.
abbrev pub Held : Bytes → Parser → Bytes → Type 0
Held input p rest = (pre : Bytes) × (input ≡ pre ++ (take p.len p.buf ++ rest))

take-nil : (n : ℕ) → take {A = ℕ} n [] ≡ []
take-nil zero = refl
take-nil (suc n) = refl

take-split_at : (i l : ℕ) (xs : Bytes) → i ≤ l → take l xs ≡ take i xs ++ take (l - i) (drop i xs)
take-split_at zero l xs h = let e : l ≡ l - 0 = omega arith in ap (λ k. take k xs) e
take-split_at (suc i) zero xs h = absurd (omega (arith, h))
take-split_at (suc i) (suc l) [] h = sym (take-nil (suc l - suc i))
take-split_at (suc i) (suc l) (x ∷ xs) h =
    let e : l - i ≡ suc l - suc i = omega arith in
    ap (◌∷◌ x)
      (take-split_at i l xs (omega (arith, h)) ∙ ap (λ k. take i xs ++ take k (drop i xs)) e)

take-set : (xs : Bytes) (i v : ℕ) → i < length xs → take (i + 1) (set xs i v) ≡ take i xs ++ v ∷ []
take-set [] i v h = absurd (omega (arith, h))
take-set (x ∷ xs) zero v h = refl
take-set (x ∷ xs) (suc i) v h =
    let e : suc i + 1 ≡ suc (i + 1) = omega arith in
    ap (λ k. take k (x ∷ set xs i v)) e ∙ ap (◌∷◌ x) (take-set xs i v (omega (arith, h)))

take-append_left : (xs ys : Bytes) (n : ℕ) → length xs ≡ n → take n (xs ++ ys) ≡ xs
take-append_left [] ys zero h = refl
take-append_left [] ys (suc n) h = absurd (omega (arith, h))
take-append_left (x ∷ xs) ys zero h = absurd (omega (arith, h))
take-append_left (x ∷ xs) ys (suc n) h = ap (◌∷◌ x) (take-append_left xs ys n (omega (arith, h)))

append_five : (a b c d e : Bytes) → a ++ ((b ++ (c ++ d)) ++ e) ≡ (a ++ b) ++ (c ++ (d ++ e))
append_five a b c d e =
    ap (◌++◌ a) (append_assoc b (c ++ d) e ∙ ap (◌++◌ b) (append_assoc c d e))
    ∙ sym (append_assoc a b (c ++ (d ++ e)))

-- So many bytes from one of those in use on.
pub Held-Part :
    (input : Bytes) (p : Parser) (rest : Bytes) (i n : ℕ)
    → Held input p rest
    → i ≤ p.len
    → n ≤ p.len - i
    → Part input (take n (drop i p.buf))
Held-Part input p rest i n (pre, e) h k =
    let d = drop i p.buf in
    let l = p.len - i in
    let split : take p.len p.buf ≡ take i p.buf ++ (take n d ++ take (l - n) (drop n d)) =
      take-split_at i p.len p.buf h ∙ ap (◌++◌ (take i p.buf)) (take-split_at n l d k) in
    (
      pre ++ take i p.buf,
      take (l - n) (drop n d) ++ rest,
      e
          ∙ ap (λ w. pre ++ (w ++ rest)) split
          ∙ append_five pre (take i p.buf) (take n d) (take (l - n) (drop n d)) rest,
    )

pub append_byte-Held :
    (fpu : Fpu) (input : Bytes) (p : Parser) (c : ℕ) (cs : Bytes)
    → p.len < length p.buf
    → Held input p (c ∷ cs)
    → Held input (append_byte fpu p c) cs
append_byte-Held fpu input p c cs h (pre, e) = (
  pre,
  e
      ∙ ap (◌++◌ pre) (
          sym (append_assoc (take p.len p.buf) (c ∷ []) cs)
          ∙ ap (λ w. w ++ cs) (sym (take-set p.buf p.len c h))),
)

moved_front :
    (buf : Bytes) (i l : ℕ)
    → i ≤ l
    → l ≤ length buf
    → take (l - i) (memmove_front buf i (l - i)) ≡ take (l - i) (drop i buf)
moved_front buf i l h k =
    take-append_left (take (l - i) (drop i buf)) (drop (l - i) buf) (l - i)
      (omega (arith, length-take (l - i) (drop i buf), length-drop i buf, h, k))

pub compact-Held :
    (fpu : Fpu) (input : Bytes) (p : Parser) (i : ℕ) (cs : Bytes)
    → i ≤ p.len
    → p.len ≤ length p.buf
    → Held input p cs
    → Held input (compact fpu p i) cs
compact-Held fpu input p i cs h k (pre, e) = elim (Bool-cases (ltb 0 i)) [
  | inr z ↦ rw z (pre, e)
  | inl z ↦ rw z (
    pre ++ take i p.buf,
    e
        ∙ ap (λ w. pre ++ (w ++ cs)) (take-split_at i p.len p.buf h)
        ∙ ap (◌++◌ pre) (append_assoc (take i p.buf) (take (p.len - i) (drop i p.buf)) cs)
        ∙ sym (append_assoc pre (take i p.buf) (take (p.len - i) (drop i p.buf) ++ cs))
        ∙ ap (λ w. (pre ++ take i p.buf) ++ (w ++ cs)) (sym (moved_front p.buf i p.len h k)),
  )
]

-- The same bytes in another state.
pub Held-same :
    (input : Bytes) (p q : Parser) (cs : Bytes)
    → q.buf ≡ p.buf
    → q.len ≡ p.len
    → Held input p cs
    → Held input q cs
Held-same input p q cs eb el (pre, e) =
    (pre, subst₂ (λ b l. input ≡ pre ++ (take l b ++ cs)) (sym eb) (sym el) e)
