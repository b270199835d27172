-- ===== src/Sbf/Framing.antt =====
-- The framing of blocks of main/sbf_parser.h, and what a reader sees of a block in a larger
-- buffer (main/sbf_parser.c).
use tab5_client.Prelude.{
  ℕ, zero, suc, ◌+◌, ◌-◌, ◌%◌, ◌≤◌, ◌<◌, ◌≡◌, refl, inl, inr, [], ◌∷◌, ◌++◌, append-nil, arith, ltb,
  Bool-cases, length, drop, get_or-append_left, Bytes,
}
use tab5_client.Sbf.Fields.{byte, rd_u16, rd_u32}
use tab5_client.Sbf.Crc.{crc_byte, crc_loop, crc16_ccitt}
use tab5_client.Sbf.Blocks.{sbf_max_block}
use tab5_client.Sbf.Feed.{stop, accept, examine}

-- The framing of a block, as the head of main/sbf_parser.h describes it.
pub record IsFrame (f : Bytes) : Type 0 where
  pub sync1 : byte f 0 ≡ 0x24
  pub sync2 : byte f 1 ≡ 0x40
  pub length_is : rd_u16 f 6 ≡ length f
  pub header : 8 ≤ length f
  pub longest : length f ≤ sbf_max_block
  pub aligned : length f % 4 ≡ 0
  pub crc : crc16_ccitt f 4 (length f - 4) ≡ rd_u16 f 2

pub byte-append : (xs ys : Bytes) (i : ℕ) → i < length xs → byte (xs ++ ys) i ≡ byte xs i
byte-append xs ys i h = get_or-append_left xs ys i 0 h

pub rd_u16-append : (xs ys : Bytes) (i : ℕ) → i + 1 < length xs → rd_u16 (xs ++ ys) i ≡ rd_u16 xs i
unfolding rd_u16
rd_u16-append xs ys i h = rw (byte-append xs ys i (omega arith), byte-append xs ys (i + 1) h)

pub crc_loop-append :
    (n : ℕ) (xs ys : Bytes) (i crc : ℕ)
    → i + n ≤ length xs
    → crc_loop n (xs ++ ys) i crc ≡ crc_loop n xs i crc
unfolding crc_loop
crc_loop-append zero xs ys i crc h = refl
crc_loop-append (suc n) xs ys i crc h =
    rw (byte-append xs ys i (omega arith))
      (crc_loop-append n xs ys (i + 1) (crc_byte crc (byte xs i)) (omega arith))

pub crc16_ccitt-append :
    (xs ys : Bytes) (off n : ℕ)
    → off + n ≤ length xs
    → crc16_ccitt (xs ++ ys) off n ≡ crc16_ccitt xs off n
unfolding crc16_ccitt
crc16_ccitt-append xs ys off n h = crc_loop-append n xs ys off 0 h

-- A whole block is taken, whatever stands behind it.
pub examine-IsFrame :
    {f : Bytes} (st : Bytes) → IsFrame f → examine (f ++ st) (length f) ≡ accept (length f)
unfolding examine
examine-IsFrame {f} st v =
    let h = v.header in
    ground (
      arith,
      byte-append f st 0 (omega arith),
      byte-append f st 1 (omega arith),
      rd_u16-append f st 2 (omega arith),
      rd_u16-append f st 6 (omega arith),
      crc16_ccitt-append f st 4 (length f - 4) (omega arith),
    )

-- A part of a block, from its start on, is waited for.
pub examine-part :
    (xs ys st : Bytes)
    → IsFrame (xs ++ ys)
    → length xs < length (xs ++ ys)
    → examine (xs ++ st) (length xs) ≡ stop
unfolding examine
examine-part xs ys st v h = elim (Bool-cases (ltb (length xs) 8)) [
  | inl e ↦ rw e
  | inr e ↦
      let l : 8 ≤ length xs = ground arith in
      ground (
        arith,
        byte-append xs st 0 (omega arith),
        byte-append xs st 1 (omega arith),
        rd_u16-append xs st 6 (omega arith),
        byte-append xs ys 0 (omega arith),
        byte-append xs ys 1 (omega arith),
        rd_u16-append xs ys 6 (omega arith),
      )
]

pub byte-beyond : (xs : Bytes) (i : ℕ) → length xs ≤ i → byte xs i ≡ 0
byte-beyond [] i h = refl
byte-beyond (x ∷ xs) zero h = absurd (omega arith)
byte-beyond (x ∷ xs) (suc i) h = byte-beyond xs i (omega arith)

-- Behind the bytes in use the array holds what it held before.
pub byte-behind :
    (xs ys : Bytes) (i : ℕ) → length xs ≤ i → byte (xs ++ drop (length xs) ys) i ≡ byte ys i
byte-behind [] ys i h = refl
byte-behind (x ∷ xs) [] zero h = absurd (omega arith)
byte-behind (x ∷ xs) [] (suc i) h = rw (append-nil xs) (byte-beyond xs i (omega arith))
byte-behind (x ∷ xs) (y ∷ ys) zero h = absurd (omega arith)
byte-behind (x ∷ xs) (y ∷ ys) (suc i) h = byte-behind xs ys i (omega arith)

pub rd_u32-append : (xs ys : Bytes) (i : ℕ) → i + 3 < length xs → rd_u32 (xs ++ ys) i ≡ rd_u32 xs i
unfolding rd_u32
rd_u32-append xs ys i h = rw (
  byte-append xs ys i (omega arith),
  byte-append xs ys (i + 1) (omega arith),
  byte-append xs ys (i + 2) (omega arith),
  byte-append xs ys (i + 3) h,
)
