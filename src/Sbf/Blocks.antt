-- ===== src/Sbf/Blocks.antt =====
-- The decoded blocks and the parser state of main/sbf_parser.h, and the decoders of
-- main/sbf_parser.c. `b` points at the block's first sync byte.
use tab5_client.Prelude.{
  ℕ, ◌+◌, ◌-◌, ◌^◌, bit_and, Bool, true, ◌==◌, if◌then◌else◌, Bytes, u16, u32,
}
use tab5_client.Float.{F32, F64, nan32, nan64, le_dnu64, Fpu}
use tab5_client.Sbf.Fields.{byte, rd_u16, rd_u32, rd_f32, rd_f64, f32_dnu, f64_dnu}

pub record PvtGeodetic : Type 0 where
  pub tow_ms : ℕ
  pub wnc : ℕ
  pub mode_raw : ℕ
  pub mode_type : ℕ
  pub error : ℕ
  pub nr_sv : ℕ
  pub lat_deg : F64
  pub lon_deg : F64
  pub height_m : F64
  pub h_accuracy_m : F32
  pub v_accuracy_m : F32

pub record AttEuler : Type 0 where
  pub tow_ms : ℕ
  pub wnc : ℕ
  pub nr_sv : ℕ
  pub error : ℕ
  pub mode : ℕ
  pub heading_deg : F32
  pub pitch_deg : F32
  pub roll_deg : F32

pub record Dop : Type 0 where
  pub tow_ms : ℕ
  pub wnc : ℕ
  pub nr_sv : ℕ
  pub pdop : F32
  pub tdop : F32
  pub hdop : F32
  pub vdop : F32
  pub hpl_m : F32
  pub vpl_m : F32

-- `temperature_c` is an `int16_t`, held as its 16-bit pattern.
pub record ReceiverStatus : Type 0 where
  pub tow_ms : ℕ
  pub wnc : ℕ
  pub cpu_load_pct : ℕ
  pub ext_error : ℕ
  pub uptime_s : ℕ
  pub rx_state : ℕ
  pub rx_error : ℕ
  pub agc_subblocks : ℕ
  pub temperature_c : ℕ

-- `buf` is the whole array, the stale bytes behind the `len` in use included: a decoder may
-- read them.
pub record Parser : Type 0 where
  pub buf : Bytes
  pub len : ℕ
  pub valid_blocks : ℕ
  pub crc_failed : ℕ
  pub pvt : PvtGeodetic
  pub pvt_count : ℕ
  pub pvt_valid : Bool
  pub att : AttEuler
  pub att_count : ℕ
  pub att_valid : Bool
  pub dop : Dop
  pub dop_count : ℕ
  pub dop_valid : Bool
  pub rxstatus : ReceiverStatus
  pub rxstatus_count : ℕ
  pub rxstatus_valid : Bool

abbrev pub sbf_max_block : ℕ
sbf_max_block = 512

abbrev pub sbf_buf_cap : ℕ
sbf_buf_cap = 1024

abbrev pub sbf_dnu_u2 : ℕ
sbf_dnu_u2 = 0xFFFF

-- 100.0f, and 180.0 / M_PI as the compiler folds it.
abbrev f32_100 : F32
f32_100 = 0x42C80000

abbrev deg_per_rad : F64
deg_per_rad = 0x404CA5DC1A63C1F8

-- `v / 100.0f` of a `uint16_t`
abbrev pub hundredths : Fpu → ℕ → F32
hundredths fpu v = fpu.f32_div (fpu.f32_of_u32 v) f32_100

-- radians on the wire, degrees in the record
abbrev pub angle_deg : Fpu → F64 → F64
angle_deg fpu v = if le_dnu64 v then nan64 else fpu.f64_mul v deg_per_rad

abbrev pub accuracy_m : Fpu → ℕ → F32
accuracy_m fpu v = if v == sbf_dnu_u2 then nan32 else hundredths fpu v

abbrev pub dop_value : Fpu → ℕ → F32
dop_value fpu v = if v == 0 then nan32 else hundredths fpu v

-- `t ? (int16_t)(t - 100) : INT16_MIN`
abbrev pub temperature : ℕ → ℕ
temperature t = if t == 0 then 2 ^ 15 else u16 (t + 2 ^ 16 - 100)

unfoldable pub read_pvtgeodetic : Fpu → Bytes → PvtGeodetic
read_pvtgeodetic fpu b = record {
  tow_ms = rd_u32 b 8;
  wnc = rd_u16 b 12;
  mode_raw = byte b 14;
  mode_type = bit_and (byte b 14) 0x0F;
  error = byte b 15;
  nr_sv = byte b 74;
  lat_deg = angle_deg fpu (rd_f64 b 16);
  lon_deg = angle_deg fpu (rd_f64 b 24);
  height_m = f64_dnu (rd_f64 b 32);
  h_accuracy_m = accuracy_m fpu (rd_u16 b 90);
  v_accuracy_m = accuracy_m fpu (rd_u16 b 92);
}

unfoldable pub read_atteuler : Bytes → AttEuler
read_atteuler b = record {
  tow_ms = rd_u32 b 8;
  wnc = rd_u16 b 12;
  nr_sv = byte b 14;
  error = byte b 15;
  mode = rd_u16 b 16;
  heading_deg = f32_dnu (rd_f32 b 20);
  pitch_deg = f32_dnu (rd_f32 b 24);
  roll_deg = f32_dnu (rd_f32 b 28);
}

unfoldable pub read_dop : Fpu → Bytes → Dop
read_dop fpu b = record {
  tow_ms = rd_u32 b 8;
  wnc = rd_u16 b 12;
  nr_sv = byte b 14;
  pdop = dop_value fpu (rd_u16 b 16);
  tdop = dop_value fpu (rd_u16 b 18);
  hdop = dop_value fpu (rd_u16 b 20);
  vdop = dop_value fpu (rd_u16 b 22);
  hpl_m = f32_dnu (rd_f32 b 24);
  vpl_m = f32_dnu (rd_f32 b 28);
}

unfoldable pub read_receiverstatus : Bytes → ReceiverStatus
read_receiverstatus b = record {
  tow_ms = rd_u32 b 8;
  wnc = rd_u16 b 12;
  cpu_load_pct = byte b 14;
  ext_error = byte b 15;
  uptime_s = rd_u32 b 16;
  rx_state = rd_u32 b 20;
  rx_error = rd_u32 b 24;
  agc_subblocks = byte b 28;
  temperature_c = temperature (byte b 31);
}

unfoldable pub decode_pvtgeodetic : Fpu → Parser → Bytes → Parser
decode_pvtgeodetic fpu p b = record p {
  pvt = read_pvtgeodetic fpu b;
  pvt_count = u32 (p.pvt_count + 1);
  pvt_valid = true;
}

unfoldable pub decode_atteuler : Parser → Bytes → Parser
decode_atteuler p b = record p {
  att = read_atteuler b;
  att_count = u32 (p.att_count + 1);
  att_valid = true;
}

unfoldable pub decode_dop : Fpu → Parser → Bytes → Parser
decode_dop fpu p b = record p {
  dop = read_dop fpu b;
  dop_count = u32 (p.dop_count + 1);
  dop_valid = true;
}

unfoldable pub decode_receiverstatus : Parser → Bytes → Parser
decode_receiverstatus p b = record p {
  rxstatus = read_receiverstatus b;
  rxstatus_count = u32 (p.rxstatus_count + 1);
  rxstatus_valid = true;
}

unfoldable pub decode_block : Fpu → Parser → Bytes → ℕ → Parser
unfolding decode_pvtgeodetic decode_atteuler decode_dop decode_receiverstatus
decode_block fpu p b block_num =
    if block_num == 4007
    then decode_pvtgeodetic fpu p b
    else if block_num == 5938
    then decode_atteuler p b
    else if block_num == 4001
    then decode_dop fpu p b
    else if block_num == 4014
    then decode_receiverstatus p b
    else p
