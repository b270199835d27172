-- ===== src/Float.antt =====
-- `float` and `double` of the target, as their IEEE-754 bit patterns. What the source only
-- stores, compares with a constant or tests by `isnan` is computed on the pattern; arithmetic
-- is the parameter `Fpu`, the operations of C's floating types.
use tab5_client.Prelude.{ℕ, ◌%◌, ◌^◌, Bool, ◌&&◌, ltb, leb, Bytes}
use tab5_client.Prelude.Int.{ℤ}

abbrev pub F32 : Type 0
F32 = ℕ

abbrev pub F64 : Type 0
F64 = ℕ

abbrev pub nan32 : F32
nan32 = 0x7FC00000

abbrev pub nan64 : F64
nan64 = 0x7FF8000000000000

-- `isnan`: the exponent is all ones, and the fraction is not zero.
abbrev pub is_nan32 : F32 → Bool
is_nan32 v = ltb 0x7F800000 (v % 2 ^ 31)

abbrev pub is_nan64 : F64 → Bool
is_nan64 v = ltb 0x7FF0000000000000 (v % 2 ^ 63)

-- `v <= -2.0e10f` and `v <= -2.0e10`: negative numbers grow with their pattern in magnitude,
-- up to minus infinity; the patterns behind that are not numbers.
abbrev pub le_dnu32 : F32 → Bool
le_dnu32 v = leb 0xD09502F9 v && leb v 0xFF800000

abbrev pub le_dnu64 : F64 → Bool
le_dnu64 v = leb 0xC212A05F20000000 v && leb v 0xFFF0000000000000

-- The arithmetic that the source uses.
pub record Fpu : Type 0 where
  pub f32_of_u32 : ℕ → F32
  pub f32_div : F32 → F32 → F32
  pub f64_add : F64 → F64 → F64
  pub f64_sub : F64 → F64 → F64
  pub f64_mul : F64 → F64 → F64
  pub f64_div : F64 → F64 → F64
  pub f64_neg : F64 → F64
  pub f64_abs : F64 → F64
  pub f64_cos : F64 → F64
  pub f64_lt : F64 → F64 → Bool
  pub f64_le : F64 → F64 → Bool
  pub f64_of_u32 : ℕ → F64
  pub f64_of_int : ℤ → F64
  pub int_of_f64 : F64 → ℤ
  pub atof : Bytes → F64
  pub f64_fmt : ℕ → F64 → Bytes  -- `%.*f`
  pub f64_min : F64 → F64 → F64
  pub f64_max : F64 → F64 → F64
  pub f64_ceil : F64 → F64
  pub f64_sin : F64 → F64
  pub f64_lround : F64 → ℤ
  pub f32_of_f64 : F64 → F32
  pub f64_of_f32 : F32 → F64
  pub f32_add : F32 → F32 → F32
  pub f32_mul : F32 → F32 → F32
  pub f32_lt : F32 → F32 → Bool
