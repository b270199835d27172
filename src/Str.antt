-- ===== src/Str.antt =====
-- C strings as the source uses them: `strlen`, `strncmp`, `strlcpy`, `atoi` and the casts that
-- follow it. A string is the bytes before the first NUL.
use tab5_client.Prelude.{
  ℕ, zero, suc, ◌+◌, ◌-◌, ◌*◌, ◌/◌, ◌%◌, ◌^◌, min, Bool, true, false, ◌&&◌, ◌||◌, [], ◌∷◌, ◌++◌,
  ltb, leb, ◌==◌, if◌then◌else◌, take, Bytes,
}
use tab5_client.Prelude.Int.{ℤ, pos, negsuc}

abbrev pub c_str : Bytes → Bytes
c_str [] = []
c_str (zero ∷ cs) = []
c_str (suc c ∷ cs) = suc c ∷ c_str cs

abbrev pub is_prefix : Bytes → Bytes → Bool
is_prefix [] s = true
is_prefix (c ∷ cs) [] = false
is_prefix (c ∷ cs) (d ∷ ds) = c == d && is_prefix cs ds

abbrev pub eq_bytes : Bytes → Bytes → Bool
eq_bytes [] [] = true
eq_bytes [] (d ∷ ds) = false
eq_bytes (c ∷ cs) [] = false
eq_bytes (c ∷ cs) (d ∷ ds) = c == d && eq_bytes cs ds

-- `strlcpy` into an array of `size` bytes.
abbrev pub strlcpy : Bytes → ℕ → Bytes
strlcpy s size = take (size - 1) s

abbrev pub is_digit : ℕ → Bool
is_digit c = leb 48 c && leb c 57

abbrev is_space : ℕ → Bool
is_space c = c == 32 || leb 9 c && leb c 13

abbrev digits : Bytes → ℕ → ℕ
digits [] n = n
digits (c ∷ cs) n = if is_digit c then digits cs (10 * n + (c - 48)) else n

-- `strtol` gives the nearest `long` when the number does not fit.
abbrev signed : Bytes → ℤ
signed [] = pos 0
signed (c ∷ cs) =
    if c == 45
    then (elim (digits cs 0) [ zero ↦ pos 0 | suc n ↦ negsuc (min n (2 ^ 31 - 1)) ])
    else pos (min (digits (if c == 43 then cs else c ∷ cs) 0) (2 ^ 31 - 1))

unfoldable pub atoi : Bytes → ℤ
atoi [] = pos 0
atoi (c ∷ cs) = let rest = atoi cs in if is_space c then rest else signed (c ∷ cs)

-- `(uint8_t)` and `(int16_t)` of an int.
abbrev pub u8_of_int : ℤ → ℕ
u8_of_int (pos n) = n % 2 ^ 8
u8_of_int (negsuc n) = 2 ^ 8 - 1 - n % 2 ^ 8

abbrev u16_of_int : ℤ → ℕ
u16_of_int (pos n) = n % 2 ^ 16
u16_of_int (negsuc n) = 2 ^ 16 - 1 - n % 2 ^ 16

abbrev pub i16_of_int : ℤ → ℤ
i16_of_int n =
    if ltb (u16_of_int n) (2 ^ 15) then pos (u16_of_int n) else negsuc (2 ^ 16 - 1 - u16_of_int n)

-- An int has at most 10 digits.
abbrev dec_loop : ℕ → ℕ → Bytes
dec_loop zero n = []
dec_loop (suc fuel) n =
    let rest = dec_loop fuel (n / 10) in
    if ltb n 10 then (48 + n) ∷ [] else rest ++ (48 + n % 10) ∷ []

-- `%d` of an int.
unfoldable pub dec : ℤ → Bytes
dec (pos n) = dec_loop 10 n
dec (negsuc n) = 45 ∷ dec_loop 10 (suc n)
