-- ===== src/Mosaic/Commands.antt =====
-- The command builder and the reply search of main/mosaic_config.c.
use tab5_client.Prelude.{
  ℕ, ◌+◌, ◌-◌, ◌<◌, bit_and, ◌≡◌, refl, ap, ◌↔◌, inl, inr, Bool, true, false, not, ◌||◌, List, [],
  ◌∷◌, ◌++◌, arith, ltb, leb, ◌==◌, if◌then◌else◌, Bool-cases, length, get_or, length-append, Bytes,
  codes,
}
use tab5_client.Str.{is_prefix, strlcpy}
use tab5_client.Mosaic.{ComPort, com_port, nmea_rate_off, clamp_baud}

-- `NMEA_MSGS_TBL`.
abbrev pub nmea_msgs_tbl : List (ℕ × Bytes)
nmea_msgs_tbl =
    (0x01, codes "GGA")
    ∷ (0x02, codes "RMC")
    ∷ (0x04, codes "VTG")
    ∷ (0x08, codes "GSA")
    ∷ (0x10, codes "ZDA")
    ∷ (0x20, codes "GSV")
    ∷ []

abbrev pub nmea_rate_cmd : List Bytes
nmea_rate_cmd =
    codes "msec100" ∷ codes "msec200" ∷ codes "msec500" ∷ codes "sec1" ∷ codes "off" ∷ []

abbrev nmea_baud_cmd : List Bytes
nmea_baud_cmd =
    codes "baud4800"
    ∷ codes "baud9600"
    ∷ codes "baud19200"
    ∷ codes "baud38400"
    ∷ codes "baud57600"
    ∷ codes "baud115200"
    ∷ []

abbrev list_size : ℕ
list_size = 64

abbrev pub plus : Bytes
plus = codes "+"

-- What one `snprintf` of the loop prints.
abbrev pub piece : ℕ → Bytes → Bytes
piece pos name = if pos == 0 then name else plus ++ name

-- The loop of `build_nmea_cmd`: the text in `list`, and `pos`.
unfoldable pub list_loop : List (ℕ × Bytes) → ℕ → Bytes → ℕ → Bytes
list_loop [] msgs list pos = list
list_loop ((bit, name) ∷ rest) msgs list pos =
    let with_it =
      list_loop rest msgs (list ++ strlcpy (piece pos name) (list_size - pos))
        (pos + length (piece pos name)) in
    let without = list_loop rest msgs list pos in if bit_and msgs bit == 0 then without else with_it

-- "setNMEAOutput, <stream>, <port>", and the disabling command.
abbrev pub output_cmd : ComPort → Bytes
output_cmd p = codes "setNMEAOutput, " ++ p.stream ++ codes ", " ++ p.com_name

abbrev pub none_cmd : ComPort → Bytes
none_cmd p = output_cmd p ++ codes ", none"

unfoldable pub build_nmea_cmd : ℕ → Bool → ℕ → ℕ → ℕ → Bytes × Bool
build_nmea_cmd port enabled msgs rate outlen =
    let p = com_port port in
    if not enabled || msgs == 0 || leb nmea_rate_off rate
    then (strlcpy (none_cmd p) outlen, false)
    else (
      strlcpy
          (output_cmd p
            ++ codes ", "
            ++ list_loop nmea_msgs_tbl msgs [] 0
            ++ codes ", "
            ++ get_or nmea_rate_cmd rate [])
          outlen,
      true,
    )

unfoldable pub com_settings_cmd : ℕ → ℕ → Bytes
com_settings_cmd port baud =
    strlcpy
      (codes "setCOMSettings, "
        ++ (com_port port).com_name
        ++ codes ", "
        ++ get_or nmea_baud_cmd (clamp_baud baud) [])
      128

-- The loop of `buf_contains`, over the rest of the buffer.
unfoldable pub contains_loop : Bytes → Bytes → Bool
contains_loop [] needle = false
contains_loop (c ∷ cs) needle =
    let later = contains_loop cs needle in
    if leb (length needle) (length (c ∷ cs))
    then if is_prefix needle (c ∷ cs) then true else later
    else false

-- `hay` is the first `len` bytes.
unfoldable pub buf_contains : Bytes → Bytes → Bool
buf_contains hay needle =
    if length needle == 0 || ltb (length hay) (length needle)
    then false
    else contains_loop hay needle

is_prefix-append : (n hay : Bytes) → is_prefix n hay ≡ true → (rest : Bytes) × (hay ≡ n ++ rest)
is_prefix-append [] hay h = (hay, refl)
is_prefix-append (c ∷ n) [] h = absurd (ground arith)
is_prefix-append (c ∷ n) (d ∷ hay) h =
    let eq : c ≡ d = ground (arith, h) in
    let tail : is_prefix n hay ≡ true = ground (arith, h) in
    let (rest, e) = is_prefix-append n hay tail in (rest, rw (eq, e) refl)

append-is_prefix : (n rest : Bytes) → is_prefix n (n ++ rest) ≡ true
append-is_prefix [] rest = refl
append-is_prefix (c ∷ n) rest = ground (arith, append-is_prefix n rest)

contains_loop-found :
    (hay n : Bytes)
    → contains_loop hay n ≡ true
    → (pre : Bytes) × (post : Bytes) × (hay ≡ pre ++ (n ++ post))
unfolding contains_loop
contains_loop-found [] n h = absurd (ground arith)
contains_loop-found (c ∷ cs) n h = elim (Bool-cases (is_prefix n (c ∷ cs))) [
  | inl p ↦ let (post, e) = is_prefix-append n (c ∷ cs) p in ([], post, e)
  | inr p ↦
      let later : contains_loop cs n ≡ true = ground (arith, p, h) in
      let (pre, post, e) = contains_loop-found cs n later in (c ∷ pre, post, ap (◌∷◌ c) e)
]

contains_loop-here :
    (pre n post : Bytes) → 0 < length n → contains_loop (pre ++ (n ++ post)) n ≡ true
unfolding contains_loop
contains_loop-here [] [] post h = absurd (omega arith)
contains_loop-here [] (c ∷ n) post h =
    ground (arith, append-is_prefix (c ∷ n) post, length-append (c ∷ n) post)
contains_loop-here (d ∷ pre) n post h =
    ground
      (arith, contains_loop-here pre n post h, length-append pre (n ++ post), length-append n post)

-- A text that is not empty is found in a reply exactly if the reply holds it somewhere, whatever
-- bytes are around it.
pub buf_contains-found :
    (hay n : Bytes)
    → 0 < length n
    → (buf_contains hay n ≡ true) ↔ ((pre : Bytes) × (post : Bytes) × (hay ≡ pre ++ (n ++ post)))
unfolding buf_contains
buf_contains-found hay n h = (
  λ found. contains_loop-found hay n (ground (arith, found)),
  λ (pre, post, e).
      let fits : ltb (length hay) (length n) ≡ false =
        ground (arith, ap length e, length-append pre (n ++ post), length-append n post) in
      let some_text : (length n == 0) ≡ false = ground (arith, h) in
      rw (some_text, fits) (rw e (contains_loop-here pre n post h)),
)
