-- ===== src/Sbf/Fields.antt =====
-- The field reads of main/sbf_parser.c. A pointer into the buffer is the list from there on.
use tab5_client.Prelude.{ℕ, ◌+◌, ◌*◌, ◌^◌, bit_or, if◌then◌else◌, get_or, Bytes, ◌<<<◌}
use tab5_client.Float.{F32, F64, nan32, nan64, le_dnu32, le_dnu64}

abbrev pub byte : Bytes → ℕ → ℕ
byte b off = get_or b off 0

unfoldable pub rd_u16 : Bytes → ℕ → ℕ
rd_u16 b off = bit_or (byte b off) (byte b (off + 1) <<< 8)

unfoldable pub rd_u32 : Bytes → ℕ → ℕ
rd_u32 b off =
    bit_or (bit_or (bit_or (byte b off) (byte b (off + 1) <<< 8)) (byte b (off + 2) <<< 16))
      (byte b (off + 3) <<< 24)

-- `memcpy` of a little-endian `float` on a little-endian target.
abbrev pub rd_f32 : Bytes → ℕ → F32
rd_f32 b off = rd_u32 b off

abbrev pub rd_f64 : Bytes → ℕ → F64
rd_f64 b off = rd_u32 b off + rd_u32 b (off + 4) * 2 ^ 32

abbrev pub f32_dnu : F32 → F32
f32_dnu v = if le_dnu32 v then nan32 else v

abbrev pub f64_dnu : F64 → F64
f64_dnu v = if le_dnu64 v then nan64 else v
